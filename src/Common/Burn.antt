-- ===== src/Common/Burn.antt =====
-- `apply_burn_to_weights` of common/utils.py. The weights are natural numbers in a unit of choice, so that the new
-- ones are fractions; the burn is a fraction of 1.
pub mod Laws
mod Tests
use custom_scraper.Prelude.{
  List, Option, String, [], if◌then◌else◌, none, some, string_key, suc, sum_by, ℕ, ◌+◌, ◌==◌, ◌||◌,
  ◌∷◌,
}
use custom_scraper.Ratio.{Ratio, complement, mul, over}
use mathlib.Core.Option

-- `metagraph.hotkeys.index`
unfoldable pub index_of : String → List String → Option ℕ
index_of key [] = none
index_of key (x ∷ xs) =
    let rest = Option.map suc (index_of key xs) in if string_key.same x key then some 0 else rest

-- The sum of the weights of the others, from the uid `uid` on.
unfoldable pub other_sum : ℕ → ℕ → List ℕ → ℕ
other_sum owner_uid uid [] = 0
other_sum owner_uid uid (w ∷ ws) =
    (if uid == owner_uid then 0 else w) + other_sum owner_uid (uid + 1) ws

unfoldable pub burnt : Ratio → ℕ → ℕ → ℕ → List ℕ → List Ratio
unfolding mul complement
burnt burn others owner_uid uid [] = []
burnt burn others owner_uid uid (w ∷ ws) =
    (if uid == owner_uid then burn else mul (complement burn) (over w others))
    ∷ burnt burn others owner_uid (uid + 1) ws

-- `owner` is what the chain answers. `none` is the old weights.
unfoldable pub apply_burn_to_weights :
    List ℕ → List String → Option String → Ratio → Option (List Ratio)
unfolding other_sum burnt index_of
apply_burn_to_weights raw_weights hotkeys owner burn_percentage =
    elim (Option.bind owner (λ hotkey. index_of hotkey hotkeys)) [
      | none ↦ none
      | some owner_uid ↦
          if sum_by (λ w. w) raw_weights == 0 || other_sum owner_uid 0 raw_weights == 0
          then none
          else some
              (burnt burn_percentage (other_sum owner_uid 0 raw_weights) owner_uid 0 raw_weights)
    ]
