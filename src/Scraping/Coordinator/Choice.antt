-- ===== src/Scraping/Coordinator/Choice.antt =====
-- The scrapes that a scraper makes.
-- A label out of the choices, or none where there are none.
use custom_scraper.Prelude.{
  Bool, List, Option, String, [], arith, false, if◌then◌else◌, length, ltb, ltb→lt, member, none,
  refl, some, string_key, true, ℕ, ◌*◌, ◌+◌, ◌-◌, ◌/◌, ◌∷◌, ◌≡◌, ◌≤◌,
}
use custom_scraper.Prelude.Dict.{lookup}
use custom_scraper.Ratio.Laws.{lt_le}
use custom_scraper.Scraping.Coordinator.{
  CoordinatorConfig, LabelScrapingConfig, ScrapeConfig, ScraperConfig, choose_scrape_configs,
  chosen_labels, chosen_range, configs_of, youtube_id,
}
use custom_scraper.Vali.Samples.{from_datetime, to_date_range}

abbrev pub IsChoice : Option (List String) → Option (List String) → Type 0
IsChoice none labels = labels ≡ none
IsChoice (some []) labels = labels ≡ none
IsChoice (some (c ∷ cs)) labels =
    (label : String) × (labels ≡ some (label ∷ [])) × (member label (c ∷ cs) ≡ true)

-- One scrape for each entry, in order: its limit, a choice of its labels, and a range that touches the time from the
-- hinted age to now.
abbrev pub Fits : ℕ → List LabelScrapingConfig → List ScrapeConfig → Type 0
Fits now [] [] = Unit
Fits now (l ∷ ls) (s ∷ ss) =
    (s.entity_limit ≡ l.max_data_entities)
    × IsChoice l.label_choices s.labels
    × (s.date_range.start ≤ now)
    × (now - 60 * l.max_age_hint_minutes ≤ s.date_range.end)
    × Fits now ls ss
Fits now _ _ = 1 ≤ 0

module _ (choice : ℕ → List String → String) (triangular : ℕ → ℕ → ℕ → ℕ) where
  chosen_range-touches :
      ((i left right : ℕ)
        → left ≤ right
        → (left ≤ triangular i left right) × (triangular i left right ≤ right))
      → (i : ℕ) (scraper_id : String) (age now : ℕ)
      → ((chosen_range choice triangular i scraper_id age now).start ≤ now)
        × (now - 60 * age ≤ (chosen_range choice triangular i scraper_id age now).end)
  unfolding chosen_range from_datetime to_date_range
  chosen_range-touches law i scraper_id age now = go (string_key.same scraper_id youtube_id)
    where
      between :
          (b : Bool)
          → ltb ((now - 60 * age) / 3600) (now / 3600) ≡ b
          → ((if b then triangular i ((now - 60 * age) / 3600) (now / 3600) else now / 3600) * 3600
              ≤ now)
            × (now - 60 * age
                ≤ ((if b then triangular i ((now - 60 * age) / 3600) (now / 3600) else now / 3600)
                    + 1)
                  * 3600)
      between true e =
          let (l, r) =
            law i ((now - 60 * age) / 3600) (now / 3600)
              (lt_le (ltb→lt ((now - 60 * age) / 3600) (now / 3600) e)) in
          (omega (arith, l, r), omega (arith, l, r))
      between false e = (omega arith, omega arith)

      go :
          (b : Bool)
          → ((if b
                then record { start = now - 60 * age; end = now }
                else to_date_range (
                    if ltb (from_datetime (now - 60 * age)) (from_datetime now)
                    then triangular i (from_datetime (now - 60 * age)) (from_datetime now)
                    else from_datetime now)).start
              ≤ now)
            × (now - 60 * age
                ≤ (if b
                    then record { start = now - 60 * age; end = now }
                    else to_date_range (
                        if ltb (from_datetime (now - 60 * age)) (from_datetime now)
                        then triangular i (from_datetime (now - 60 * age)) (from_datetime now)
                        else from_datetime now)).end)
      go true = (omega arith, omega arith)
      go false = between (ltb ((now - 60 * age) / 3600) (now / 3600)) refl

  chosen_labels-IsChoice :
      ((i : ℕ) (c : String) (cs : List String) → member (choice i (c ∷ cs)) (c ∷ cs) ≡ true)
      → (i : ℕ) (choices : Option (List String))
      → IsChoice choices (chosen_labels choice triangular i choices)
  unfolding chosen_labels
  chosen_labels-IsChoice law i none = refl
  chosen_labels-IsChoice law i (some []) = refl
  chosen_labels-IsChoice law i (some (c ∷ cs)) = (choice i (c ∷ cs), refl, law i c cs)

  module _
      (choice-member : (i : ℕ) (c : String) (cs : List String)
        → member (choice i (c ∷ cs)) (c ∷ cs) ≡ true)
      (triangular-le : (i left right : ℕ)
        → left ≤ right
        → (left ≤ triangular i left right) × (triangular i left right ≤ right)) where
    configs_of-Fits :
        (scraper_id : String) (now : ℕ) (ls : List LabelScrapingConfig)
        → Fits now ls (configs_of choice triangular scraper_id now ls)
    unfolding configs_of
    configs_of-Fits scraper_id now [] = tt
    configs_of-Fits scraper_id now (l ∷ ls) =
        let (from, to) =
          chosen_range-touches triangular-le (length ls) scraper_id l.max_age_hint_minutes now in
        (
          refl,
          chosen_labels-IsChoice choice-member (length ls) l.label_choices,
          from,
          to,
          configs_of-Fits scraper_id now ls,
        )

    -- Where a choice is one of the list and a draw is inside its range: a scraper of the configuration gets one scrape
    -- for each of its entries, in order, with the limit of the entry, one label out of its choices, or none
    -- where it has none, and a range that starts by now and ends no earlier than the age the entry hints.
    pub choose_scrape_configs_lem :
        (scraper_id : String) (config : CoordinatorConfig) (c : ScraperConfig) (now : ℕ)
        → lookup scraper_id config ≡ some c
        → (configs : List ScrapeConfig) × (choose_scrape_configs choice triangular scraper_id config
              now
            ≡ some configs)
          × Fits now c.labels_to_scrape configs
    unfolding choose_scrape_configs
    choose_scrape_configs_lem scraper_id config c now e = (
      configs_of choice triangular scraper_id now c.labels_to_scrape,
      rw (choose_scrape_configs, e) refl,
      configs_of-Fits scraper_id now c.labels_to_scrape,
    )
