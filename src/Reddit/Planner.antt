-- ===== src/Reddit/Planner.antt =====
-- scraping/reddit/options.py and scraping/reddit/planner.py: the options of a scrape, their checks, and the
-- targets that a plan lists.
pub mod Laws
mod Tests
use custom_scraper.Prelude.{
  Bool, List, Option, String, [], false, if◌then◌else◌, leb, map, none, some, true, ℕ, ◌&&◌, ◌++◌,
  ◌||◌, ◌∷◌,
}
use mathlib.Core.Option

pub data ListingType : Type 0 where
  new hot top rising controversial search_listing : ListingType

pub data TimeFilter : Type 0 where
  hour day week month year all_time : TimeFilter

pub data SortMode : Type 0 where
  by_relevance by_hot by_top by_new by_comments : SortMode

pub data CommentHarvestMode : Type 0 where
  post_only top_level_only all_comments : CommentHarvestMode

-- The fields that the checks and the planner read.
pub record RedditScrapeOptions : Type 0 where
  pub listing_types : List ListingType
  pub time_filters : Option (List TimeFilter)
  pub search_queries : Option (List String)
  pub search_sort : Option SortMode
  pub user_timelines : Option (List String)
  pub pagination_target : Option ℕ
  pub per_listing_limit : ℕ

unfoldable pub is_search : ListingType → Bool
is_search search_listing = true
is_search _ = false

-- `ListingType.SEARCH in listing_types`
unfoldable pub has_search : List ListingType → Bool
unfolding is_search
has_search [] = false
has_search (l ∷ ls) = is_search l || has_search ls

abbrev pub or_empty {ℓ} : {A : Type ℓ} → Option (List A) → List A
or_empty none = []
or_empty (some xs) = xs

abbrev pub is_empty {ℓ} : {A : Type ℓ} → List A → Bool
is_empty [] = true
is_empty (_ ∷ _) = false

pub data Problem : Type 0 where
  limit_not_positive target_not_positive no_listing search_without_queries : Problem

-- The validators, in the order of the fields; pydantic reports every one that fails.
unfoldable pub problems : RedditScrapeOptions → List Problem
unfolding has_search
problems o =
    (if is_empty o.listing_types then no_listing ∷ [] else [])
    ++ (if has_search o.listing_types && is_empty (or_empty o.search_queries)
        then search_without_queries ∷ []
        else [])
    ++ (if (elim o.pagination_target [ none ↦ false | some t ↦ leb t 0 ])
        then target_not_positive ∷ []
        else [])
    ++ (if leb o.per_listing_limit 0 then limit_not_positive ∷ [] else [])

pub data Surface : Type 0 where
  submissions comments : Surface

pub data Target : Type 0 where
  submissions_target : String → ListingType → Option TimeFilter → Option SortMode → ℕ → Target
  search_target : String → String → SortMode → Option TimeFilter → ℕ → Target
  user_timeline_target : String → Surface → SortMode → ℕ → Target

-- `options.time_filters or [None]`
unfoldable pub filters_or_none : Option (List TimeFilter) → List (Option TimeFilter)
filters_or_none none = none ∷ []
filters_or_none (some []) = none ∷ []
filters_or_none (some (t ∷ ts)) = map some (t ∷ ts)

unfoldable pub has_time_filter : ListingType → Bool
has_time_filter top = true
has_time_filter controversial = true
has_time_filter _ = false

-- One round of the loop over the listings.
unfoldable pub listing_targets : String → RedditScrapeOptions → ListingType → List Target
unfolding is_search has_time_filter filters_or_none
listing_targets subreddit o listing =
    if is_search listing
    then []
    else if has_time_filter listing
    then map (λ tf. submissions_target subreddit listing tf none o.per_listing_limit)
        (filters_or_none o.time_filters)
    else submissions_target subreddit listing none none o.per_listing_limit ∷ []

unfoldable pub all_listing_targets : String → RedditScrapeOptions → List ListingType → List Target
unfolding listing_targets
all_listing_targets subreddit o [] = []
all_listing_targets subreddit o (l ∷ ls) =
    listing_targets subreddit o l ++ all_listing_targets subreddit o ls

-- The loop over the queries.
unfoldable pub query_targets : String → RedditScrapeOptions → List String → List Target
unfolding filters_or_none
query_targets subreddit o [] = []
query_targets subreddit o (q ∷ qs) =
    map
      (λ tf. search_target subreddit q (Option.get_or o.search_sort by_new) tf o.per_listing_limit)
      (filters_or_none o.time_filters)
    ++ query_targets subreddit o qs

unfoldable pub timeline_targets : RedditScrapeOptions → List String → List Target
timeline_targets o [] = []
timeline_targets o (u ∷ us) =
    user_timeline_target u submissions by_new o.per_listing_limit
    ∷ user_timeline_target u comments by_new o.per_listing_limit
    ∷ timeline_targets o us

-- The targets of `build_plan`, which `expand_to_targets` returns.
unfoldable pub build_plan : String → RedditScrapeOptions → List Target
unfolding all_listing_targets query_targets timeline_targets has_search
build_plan subreddit o =
    all_listing_targets subreddit o o.listing_types
    ++ ((if has_search o.listing_types
          then query_targets subreddit o (or_empty o.search_queries)
          else [])
        ++ timeline_targets o (or_empty o.user_timelines))
