-- ===== src/Reddit/Planner/Laws.antt =====
-- What a plan holds, and how many targets.
use custom_scraper.Prelude.{
  All, All-append, Bool, Bool-cases, List, Option, String, [], arith, false, if◌then◌else◌, inl,
  inr, is_some, length, length-append, length-map, map, none, not, refl, some, sum_by, true, ℕ,
  ◌&&◌, ◌*◌, ◌++◌, ◌+◌, ◌<◌, ◌||◌, ◌∷◌, ◌≡◌,
}
use custom_scraper.Reddit.Planner.{
  ListingType, RedditScrapeOptions, Target, TimeFilter, all_listing_targets, build_plan, by_new,
  controversial, filters_or_none, has_search, has_time_filter, hot, is_empty, is_search,
  listing_targets, new, or_empty, problems, query_targets, rising, search_listing, search_target,
  submissions_target, timeline_targets, top, user_timeline_target,
}
use mathlib.Core.Option

-- What every target of a plan keeps to: it is no listing of the kind SEARCH, only TOP and CONTROVERSIAL
-- carry a time filter, and its limit is the option's.
abbrev pub IsSound : ℕ → Target → Type 0
IsSound limit (submissions_target _ listing tf _ n) =
    (is_search listing ≡ false)
    × ((has_time_filter listing || not (is_some tf)) ≡ true)
    × (n ≡ limit)
IsSound limit (search_target _ _ _ _ n) = n ≡ limit
IsSound limit (user_timeline_target _ _ _ n) = n ≡ limit

All-map_of {ℓ κ μ} :
    {A : Type ℓ} {B : Type κ} (P : B → Type μ) (f : A → B) (xs : List A)
    → ((x : A) → P (f x))
    → All P (map f xs)
All-map_of P f [] h = tt
All-map_of P f (x ∷ xs) h = (h x, All-map_of P f xs h)

listing_targets-IsSound :
    (s : String) (o : RedditScrapeOptions) (l : ListingType)
    → All (IsSound o.per_listing_limit) (listing_targets s o l)
unfolding listing_targets is_search has_time_filter
listing_targets-IsSound s o search_listing = tt
listing_targets-IsSound s o top =
    All-map_of _ _ (filters_or_none o.time_filters) (λ tf. (refl, refl, refl))
listing_targets-IsSound s o controversial =
    All-map_of _ _ (filters_or_none o.time_filters) (λ tf. (refl, refl, refl))
listing_targets-IsSound s o new = ((refl, refl, refl), tt)
listing_targets-IsSound s o hot = ((refl, refl, refl), tt)
listing_targets-IsSound s o rising = ((refl, refl, refl), tt)

all_listing_targets-IsSound :
    (s : String) (o : RedditScrapeOptions) (ls : List ListingType)
    → All (IsSound o.per_listing_limit) (all_listing_targets s o ls)
unfolding all_listing_targets
all_listing_targets-IsSound s o [] = tt
all_listing_targets-IsSound s o (l ∷ ls) =
    All-append _ (listing_targets s o l) (all_listing_targets s o ls)
      (listing_targets-IsSound s o l) (all_listing_targets-IsSound s o ls)

query_targets-IsSound :
    (s : String) (o : RedditScrapeOptions) (qs : List String)
    → All (IsSound o.per_listing_limit) (query_targets s o qs)
unfolding query_targets
query_targets-IsSound s o [] = tt
query_targets-IsSound s o (q ∷ qs) =
    All-append _ _ (query_targets s o qs)
      (All-map_of (IsSound o.per_listing_limit) _ (filters_or_none o.time_filters) (λ tf. refl))
      (query_targets-IsSound s o qs)

timeline_targets-IsSound :
    (o : RedditScrapeOptions) (us : List String)
    → All (IsSound o.per_listing_limit) (timeline_targets o us)
unfolding timeline_targets
timeline_targets-IsSound o [] = tt
timeline_targets-IsSound o (u ∷ us) = (refl, (refl, timeline_targets-IsSound o us))

if_queries-IsSound :
    (b : Bool) (s : String) (o : RedditScrapeOptions) (qs : List String)
    → All (IsSound o.per_listing_limit) (if b then query_targets s o qs else [])
if_queries-IsSound true s o qs = query_targets-IsSound s o qs
if_queries-IsSound false s o qs = tt

-- No submissions target of a plan is a SEARCH listing or carries a time filter outside TOP and
-- CONTROVERSIAL, and every target has the limit of the options.
pub build_plan-IsSound :
    (s : String) (o : RedditScrapeOptions) → All (IsSound o.per_listing_limit) (build_plan s o)
unfolding build_plan
build_plan-IsSound s o =
    All-append _ (all_listing_targets s o o.listing_types) _
      (all_listing_targets-IsSound s o o.listing_types)
      (All-append _
        (if has_search o.listing_types then query_targets s o (or_empty o.search_queries) else []) _
        (if_queries-IsSound (has_search o.listing_types) s o (or_empty o.search_queries))
        (timeline_targets-IsSound o (or_empty o.user_timelines)))

-- The number of targets of one listing.
abbrev pub listing_count : ℕ → ListingType → ℕ
listing_count filters l = if is_search l then 0 else if has_time_filter l then filters else 1

length-listing_targets :
    (s : String) (o : RedditScrapeOptions) (l : ListingType)
    → length (listing_targets s o l) ≡ listing_count (length (filters_or_none o.time_filters)) l
unfolding listing_targets
length-listing_targets s o l = ground (
  arith,
  length-map (filters_or_none o.time_filters)
      (λ tf. submissions_target s l tf none o.per_listing_limit),
)

length-all_listing_targets :
    (s : String) (o : RedditScrapeOptions) (ls : List ListingType)
    → length (all_listing_targets s o ls)
      ≡ sum_by (listing_count (length (filters_or_none o.time_filters))) ls
unfolding all_listing_targets
length-all_listing_targets s o [] = refl
length-all_listing_targets s o (l ∷ ls) = omega (
  arith,
  length-append (listing_targets s o l) (all_listing_targets s o ls),
  length-listing_targets s o l,
  length-all_listing_targets s o ls,
)

length-query_targets :
    (s : String) (o : RedditScrapeOptions) (qs : List String)
    → length (query_targets s o qs) ≡ length qs * length (filters_or_none o.time_filters)
unfolding query_targets
length-query_targets s o [] = omega arith
length-query_targets s o (q ∷ qs) =
    let f : Option TimeFilter → Target =
      λ tf. search_target s q (Option.get_or o.search_sort by_new) tf o.per_listing_limit in
    omega (
      arith,
      length-append (map f (filters_or_none o.time_filters)) (query_targets s o qs),
      length-map (filters_or_none o.time_filters) f,
      length-query_targets s o qs,
    )

length-timeline_targets :
    (o : RedditScrapeOptions) (us : List String) → length (timeline_targets o us) ≡ 2 * length us
unfolding timeline_targets
length-timeline_targets o [] = omega arith
length-timeline_targets o (u ∷ us) = omega (arith, length-timeline_targets o us)

length-if_queries :
    (b : Bool) (s : String) (o : RedditScrapeOptions) (qs : List String)
    → length (if b then query_targets s o qs else [])
      ≡ (if b then length qs * length (filters_or_none o.time_filters) else 0)
length-if_queries true s o qs = length-query_targets s o qs
length-if_queries false s o qs = refl

-- A plan has a target for each listing, or for each of its time filters where it takes them, one for each
-- query and time filter if SEARCH is asked for, and two for each user.
pub length-build_plan :
    (s : String) (o : RedditScrapeOptions)
    → length (build_plan s o)
      ≡ sum_by (listing_count (length (filters_or_none o.time_filters))) o.listing_types
        + (if has_search o.listing_types
            then length (or_empty o.search_queries) * length (filters_or_none o.time_filters)
            else 0)
        + 2 * length (or_empty o.user_timelines)
unfolding build_plan
length-build_plan s o =
    let queries = or_empty o.search_queries in
    let users = or_empty o.user_timelines in
    let searched : List Target =
      if has_search o.listing_types then query_targets s o queries else [] in
    omega (
      arith,
      length-append (all_listing_targets s o o.listing_types)
          (searched ++ timeline_targets o users),
      length-append searched (timeline_targets o users),
      length-all_listing_targets s o o.listing_types,
      length-if_queries (has_search o.listing_types) s o queries,
      length-timeline_targets o users,
    )

filters_pos : (fs : Option (List TimeFilter)) → 0 < length (filters_or_none fs)
unfolding filters_or_none
filters_pos none = omega arith
filters_pos (some []) = omega arith
filters_pos (some (t ∷ ts)) = omega arith

listing_pos : (n : ℕ) (l : ListingType) → 0 < n → is_search l ≡ false → 0 < listing_count n l
listing_pos n l h e = ground arith

-- Options that pass the checks ask for a listing, and for queries if they ask for SEARCH.
no_problems :
    (o : RedditScrapeOptions)
    → problems o ≡ []
    → (is_empty o.listing_types ≡ false)
      × ((has_search o.listing_types && is_empty (or_empty o.search_queries)) ≡ false)
unfolding problems
no_problems o h = ground arith

plan_pos :
    (ls : List ListingType) (qs : List String) (n : ℕ)
    → 0 < n
    → is_empty ls ≡ false
    → (has_search ls && is_empty qs) ≡ false
    → 0 < sum_by (listing_count n) ls + (if has_search ls then length qs * n else 0)
unfolding has_search
plan_pos [] qs n h e f = cc
plan_pos (l ∷ ls) [] n h e f = elim (Bool-cases (is_search l)) [
  | inl searches ↦ ground arith
  | inr lists ↦ omega (arith, listing_pos n l h lists)
]
plan_pos (l ∷ ls) (q ∷ qs) n h e f = elim (Bool-cases (is_search l)) [
  | inl searches ↦ rw searches (omega arith)
  | inr lists ↦ omega (arith, listing_pos n l h lists)
]

-- Options with no problem give a plan that is not empty.
pub build_plan_nonempty :
    (s : String) (o : RedditScrapeOptions) → problems o ≡ [] → 0 < length (build_plan s o)
build_plan_nonempty s o h =
    let (listed, queried) = no_problems o h in
    omega (
      arith,
      length-build_plan s o,
      plan_pos o.listing_types (or_empty o.search_queries) (length (filters_or_none o.time_filters))
          (filters_pos o.time_filters) listed queried,
    )
