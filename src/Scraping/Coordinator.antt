-- ===== src/Scraping/Coordinator.antt =====
-- scraping/coordinator.py: which scrapers are due, and the scrapes that are put in the queue. Instants are seconds
-- since the epoch, far from 0.
pub mod Laws
pub mod Choice
mod Tests
use custom_scraper.Prelude.{
  Bool, List, Option, String, [], if◌then◌else◌, leb, length, ltb, map, none, some, string_key,
  true, ℕ, ◌*◌, ◌++◌, ◌-◌, ◌∷◌,
}
use custom_scraper.Prelude.Dict.{Dict, insert, lookup}
use custom_scraper.Vali.Samples.{DateRange, from_datetime, to_date_range}
use mathlib.Core.Option

pub record LabelScrapingConfig : Type 0 where
  pub label_choices : Option (List String)
  pub max_age_hint_minutes : ℕ
  pub max_data_entities : Option ℕ

pub record ScraperConfig : Type 0 where
  pub cadence_seconds : ℕ
  pub labels_to_scrape : List LabelScrapingConfig

-- `CoordinatorConfig`, by the id of the scraper.
abbrev pub CoordinatorConfig : Type 0
CoordinatorConfig = Dict String ScraperConfig

pub record ScrapeConfig : Type 0 where
  pub entity_limit : Option ℕ
  pub date_range : DateRange
  pub labels : Option (List String)

pub record Tracker : Type 0 where
  pub cadences : Dict String ℕ
  pub last_scrapes : Dict String ℕ

unfoldable pub new_tracker : CoordinatorConfig → ℕ → Tracker
new_tracker config now = record {
  cadences = map (λ row. (row.0, row.1.cadence_seconds)) config;
  last_scrapes = map (λ row. (row.0, now)) config;
}

-- `last_scrape_time is None or now - last_scrape_time >= cadence`
unfoldable pub due : Dict String ℕ → ℕ → String → ℕ → Bool
due last_scrapes now scraper_id cadence = elim (lookup scraper_id last_scrapes) [
  | none ↦ true
  | some last ↦ leb cadence (now - last)
]

-- `get_scraper_ids_ready_to_scrape`, and its loop.
unfoldable pub ready_of : Dict String ℕ → ℕ → Dict String ℕ → List String
unfolding due
ready_of last_scrapes now [] = []
ready_of last_scrapes now ((scraper_id, cadence) ∷ cadences) =
    let rest = ready_of last_scrapes now cadences in
    if due last_scrapes now scraper_id cadence then scraper_id ∷ rest else rest

unfoldable pub get_scraper_ids_ready_to_scrape : Tracker → ℕ → List String
unfolding ready_of
get_scraper_ids_ready_to_scrape t now = ready_of t.last_scrapes now t.cadences

unfoldable pub on_scrape_scheduled : String → ℕ → Tracker → Tracker
on_scrape_scheduled scraper_id now t = record t {
  last_scrapes = insert scraper_id now t.last_scrapes;
}

abbrev pub youtube_id : String
youtube_id = "YouTube.apify.transcript"

pub record ScraperCoordinator : Type 0 where
  pub config : CoordinatorConfig
  pub tracker : Tracker
  pub queue : List (String × ScrapeConfig)

-- `choice` is `random.choice`, and `triangular` the whole part of the triangular draw; the first argument of both is
-- the number of labels that are left.
module _ (choice : ℕ → List String → String) (triangular : ℕ → ℕ → ℕ → ℕ) where
  unfoldable pub chosen_labels : ℕ → Option (List String) → Option (List String)
  chosen_labels i none = none
  chosen_labels i (some []) = none
  chosen_labels i (some (label ∷ labels)) = some (choice i (label ∷ labels) ∷ [])

  unfoldable pub chosen_range : ℕ → String → ℕ → ℕ → DateRange
  unfolding from_datetime to_date_range
  chosen_range i scraper_id max_age_minutes now =
      let current = from_datetime now in
      let oldest = from_datetime (now - 60 * max_age_minutes) in
      if string_key.same scraper_id youtube_id
      then record { start = now - 60 * max_age_minutes; end = now }
      else to_date_range (if ltb oldest current then triangular i oldest current else current)

  unfoldable pub configs_of : String → ℕ → List LabelScrapingConfig → List ScrapeConfig
  unfolding chosen_labels chosen_range
  configs_of scraper_id now [] = []
  configs_of scraper_id now (l ∷ ls) =
      record {
        entity_limit = l.max_data_entities;
        date_range = chosen_range (length ls) scraper_id l.max_age_hint_minutes now;
        labels = chosen_labels (length ls) l.label_choices;
      }
      ∷ configs_of scraper_id now ls

  -- `_choose_scrape_configs`; `none` is the failed assertion.
  unfoldable pub choose_scrape_configs : String → CoordinatorConfig → ℕ → Option (List ScrapeConfig)
  unfolding configs_of
  choose_scrape_configs scraper_id config now =
      Option.map (λ c. configs_of scraper_id now c.labels_to_scrape) (lookup scraper_id config)

  -- The loop of `_start` over the scrapers that are due; `none` is an error that ends it.
  unfoldable pub schedule : List String → ℕ → ScraperCoordinator → Option ScraperCoordinator
  unfolding choose_scrape_configs on_scrape_scheduled
  schedule [] now s = some s
  schedule (scraper_id ∷ ids) now s = elim (choose_scrape_configs scraper_id s.config now) [
    | none ↦ none
    | some configs ↦ schedule ids now (record s {
      tracker = on_scrape_scheduled scraper_id now s.tracker;
      queue = s.queue ++ map (λ c. (scraper_id, c)) configs;
    })
  ]

  -- One round of `_start`.
  unfoldable pub round : ℕ → ScraperCoordinator → Option ScraperCoordinator
  unfolding schedule get_scraper_ids_ready_to_scrape
  round now s = schedule (get_scraper_ids_ready_to_scrape s.tracker now) now s
