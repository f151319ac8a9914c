-- ===== src/Reddit/Planner/Tests.antt =====
-- Plans of small option sets.
use custom_scraper.Prelude.{[], length, none, refl, some, ◌∷◌, ◌≡◌}
use custom_scraper.Reddit.Planner.{
  RedditScrapeOptions, build_plan, day, new, problems, search_listing, search_without_queries, top,
  week,
}

abbrev options : RedditScrapeOptions
options = record {
  listing_types = new ∷ top ∷ search_listing ∷ [];
  time_filters = some (day ∷ week ∷ []);
  search_queries = some ("python" ∷ []);
  search_sort = none;
  user_timelines = some ("spez" ∷ []);
  pagination_target = none;
  per_listing_limit = 100;
}

seven : length (build_plan "r" options) ≡ 7
unfolding build_plan
seven = refl

no_queries : problems (record options { search_queries = some [] }) ≡ search_without_queries ∷ []
unfolding problems
no_queries = refl
