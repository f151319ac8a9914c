-- ===== src/Scraping/Coordinator/Tests.antt =====
-- Two scrapers.
use custom_scraper.Prelude.{
  List, String, [], arith, member, none, refl, same_refl, some, string_key, true, ℕ, ◌∷◌, ◌≡◌,
}
use custom_scraper.Prelude.Dict.{lookup}
use custom_scraper.Scraping.Coordinator.{
  CoordinatorConfig, ScrapeConfig, ScraperConfig, choose_scrape_configs,
}
use custom_scraper.Scraping.Coordinator.Choice.{Fits, choose_scrape_configs_lem}

abbrev first_choice : ℕ → List String → String
first_choice i [] = ""
first_choice i (label ∷ labels) = label

first_member : (c : String) (cs : List String) → member c (c ∷ cs) ≡ true
unfolding member
first_member c cs = ground (arith, same_refl c)

abbrev newest : ℕ → ℕ → ℕ → ℕ
newest i left right = right

abbrev two_entries : ScraperConfig
two_entries = record {
  cadence_seconds = 300;
  labels_to_scrape =
      record {
        label_choices = some ("r/a" ∷ "r/b" ∷ []);
        max_age_hint_minutes = 1440;
        max_data_entities = some 100;
      }
      ∷ record { label_choices = none; max_age_hint_minutes = 10; max_data_entities = none }
      ∷ [];
}

abbrev config : CoordinatorConfig
config = ("Reddit.custom", two_entries) ∷ ("X.apidojo", two_entries) ∷ []

choose_scrape_configs_lem_example :
    (configs : List ScrapeConfig) × (choose_scrape_configs first_choice newest "Reddit.custom"
        config 1000000
      ≡ some configs)
    × Fits 1000000 two_entries.labels_to_scrape configs
unfolding lookup
choose_scrape_configs_lem_example =
    choose_scrape_configs_lem first_choice newest first_chosen
      (λ i left right le. (le, omega arith)) "Reddit.custom" config two_entries 1000000 refl
  where
    first_chosen :
        (i : ℕ) (c : String) (cs : List String) → member (first_choice i (c ∷ cs)) (c ∷ cs) ≡ true
    first_chosen i c cs = first_member c cs
