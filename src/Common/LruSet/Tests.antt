-- ===== src/Common/LruSet/Tests.antt =====
-- A set of two keys.
use custom_scraper.Common.LruSet.{add, init}
use custom_scraper.Common.LruSet.Laws.{IsBounded, add_all, add_all-IsBounded}
use custom_scraper.Prelude.{[], member, refl, string_key, without, ◌∷◌, ◌≡◌}

add_all-IsBounded_example : IsBounded (add_all ("a" ∷ "b" ∷ "a" ∷ "c" ∷ []) (init 2))
add_all-IsBounded_example = add_all-IsBounded 2 ("a" ∷ "b" ∷ "a" ∷ "c" ∷ [])

forgets_the_oldest : (add_all ("a" ∷ "b" ∷ "a" ∷ "c" ∷ []) (init 2)).keys ≡ "a" ∷ "c" ∷ []
unfolding add_all add init member without
forgets_the_oldest = refl
