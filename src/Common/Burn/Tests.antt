-- ===== src/Common/Burn/Tests.antt =====
-- An owner and two miners.
use custom_scraper.Common.Burn.{apply_burn_to_weights, index_of, other_sum}
use custom_scraper.Common.Burn.Laws.{apply_burn_to_weights_lem, total}
use custom_scraper.Prelude.{List, [], arith, get_elem?, refl, some, ◌∷◌, ◌≡◌}
use custom_scraper.Ratio.{Ratio, SameRatio, over}

apply_burn_to_weights_lem_example :
    (weights : List Ratio) × (apply_burn_to_weights
        (1 ∷ 3 ∷ 2 ∷ [])
        ("a" ∷ "owner" ∷ "b" ∷ [])
        (some "owner")
        (over 9 10)
      ≡ some weights)
    × (get_elem? weights 1 ≡ some (over 9 10))
    × SameRatio (total weights) (over 1 1)
unfolding index_of other_sum
apply_burn_to_weights_lem_example =
    apply_burn_to_weights_lem (1 ∷ 3 ∷ 2 ∷ []) ("a" ∷ "owner" ∷ "b" ∷ []) "owner" 1 (over 9 10) refl
      (omega arith) (omega arith, omega arith) (omega arith)
