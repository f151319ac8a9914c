-- ===== src/Common/Burn/Laws.antt =====
-- What the weights add up to.
use custom_scraper.Common.Burn.{apply_burn_to_weights, burnt, index_of, other_sum}
use custom_scraper.Prelude.{
  Bool, List, String, [], ap, arith, false, get_elem?, if◌then◌else◌, inside_ltb, leb, length, ltb,
  refl, some, suc, sum_by, true, zero, ℕ, ◌&&◌, ◌*◌, ◌+◌, ◌-◌, ◌<◌, ◌==◌, ◌∙◌, ◌∷◌, ◌≡◌, ◌≤◌,
}
use custom_scraper.Ratio.{IsShare, Ratio, SameRatio, add, complement, mul, over}
use custom_scraper.Ratio.Laws.{pos-mul, the_rest}
use mathlib.Core.Path.{subst}
use native.Mathlib.Nat.{eq_of_mul-eq-mul_left, mul_comm}
use mathlib.Core.Option

unfoldable pub total : List Ratio → Ratio
unfolding add
total [] = over 0 1
total (r ∷ rs) = add r (total rs)

positive_total :
    (burn : Ratio) (others owner_uid uid : ℕ) (ws : List ℕ)
    → 0 < burn.den
    → 0 < others
    → 0 < (total (burnt burn others owner_uid uid ws)).den
unfolding total burnt mul complement add
positive_total burn others owner_uid uid [] d o = omega arith
positive_total burn others owner_uid uid (w ∷ ws) d o =
    go (uid == owner_uid) (positive_total burn others owner_uid (uid + 1) ws d o)
  where
    go :
        (b : Bool)
        → 0 < (total (burnt burn others owner_uid (uid + 1) ws)).den
        → 0
          < (if b then burn else mul (complement burn) (over w others)).den
            * (total (burnt burn others owner_uid (uid + 1) ws)).den
    go true h = pos-mul burn.den (total (burnt burn others owner_uid (uid + 1) ws)).den d h
    go false h =
        pos-mul (burn.den * others) (total (burnt burn others owner_uid (uid + 1) ws)).den
          (pos-mul burn.den others d o) h

-- One more weight, over the denominator that all the others share.
add_owner :
    (bn bd o n d p : ℕ)
    → n * (bd * o) ≡ p * d
    → (bn * d + n * bd) * (bd * o) ≡ (bn * o + p) * (bd * d)
add_owner bn bd o n d p e = omega (arith, ap (λ k. k * bd) e)

add_other :
    (k w bd o n d p : ℕ)
    → n * (bd * o) ≡ p * d
    → (k * w * d + n * (bd * o)) * (bd * o) ≡ (k * w + p) * (bd * o * d)
add_other k w bd o n d p e = omega (arith, ap (λ m. m * (bd * o)) e)

-- The numerator of the sum from the uid `uid` on.
abbrev share_sum : Ratio → ℕ → ℕ → ℕ → List ℕ → ℕ
share_sum burn others owner_uid uid [] = 0
share_sum burn others owner_uid uid (w ∷ ws) =
    (if uid == owner_uid then burn.num * others else (burn.den - burn.num) * w)
    + share_sum burn others owner_uid (uid + 1) ws

total-burnt :
    (burn : Ratio) (others owner_uid uid : ℕ) (ws : List ℕ)
    → SameRatio
        (total (burnt burn others owner_uid uid ws))
        (over (share_sum burn others owner_uid uid ws) (burn.den * others))
unfolding total burnt mul complement add
total-burnt burn others owner_uid uid [] = omega arith
total-burnt burn others owner_uid uid (w ∷ ws) =
    go (uid == owner_uid) (total-burnt burn others owner_uid (uid + 1) ws)
  where
    tail : Ratio
    tail = total (burnt burn others owner_uid (uid + 1) ws)

    go :
        (b : Bool)
        → SameRatio
            (total (burnt burn others owner_uid (uid + 1) ws))
            (over (share_sum burn others owner_uid (uid + 1) ws) (burn.den * others))
        → SameRatio
            (add
              (if b then burn else mul (complement burn) (over w others))
              (total (burnt burn others owner_uid (uid + 1) ws)))
            (over
              ((if b then burn.num * others else (burn.den - burn.num) * w)
                + share_sum burn others owner_uid (uid + 1) ws)
              (burn.den * others))
    go true h =
        add_owner burn.num burn.den others _ _ (share_sum burn others owner_uid (uid + 1) ws) h
    go false h =
        add_other (burn.den - burn.num) w burn.den others _ _
          (share_sum burn others owner_uid (uid + 1) ws) h

-- Past the owner only the others are left, and the owner counts once.
share_sum-other_sum :
    (burn : Ratio) (others owner_uid uid : ℕ) (ws : List ℕ)
    → share_sum burn others owner_uid uid ws
      ≡ (if leb uid owner_uid && ltb owner_uid (uid + length ws) then burn.num * others else 0)
        + (burn.den - burn.num) * other_sum owner_uid uid ws
unfolding other_sum
share_sum-other_sum burn others owner_uid uid [] = ground arith
share_sum-other_sum burn others owner_uid uid (w ∷ ws) =
    ground (arith, share_sum-other_sum burn others owner_uid (uid + 1) ws)

other_sum-le : (owner_uid uid : ℕ) (ws : List ℕ) → other_sum owner_uid uid ws ≤ sum_by (λ w. w) ws
unfolding other_sum
other_sum-le owner_uid uid [] = omega arith
other_sum-le owner_uid uid (w ∷ ws) = ground (arith, other_sum-le owner_uid (uid + 1) ws)

get_elem?-burnt :
    (burn : Ratio) (others uid i : ℕ) (ws : List ℕ)
    → i < length ws
    → get_elem? (burnt burn others (uid + i) uid ws) i ≡ some burn
unfolding burnt
get_elem?-burnt burn others uid i [] h = elim h [ ]
get_elem?-burnt burn others uid zero (w ∷ ws) h = rw (same_uid uid) refl
  where
    same_uid : (n : ℕ) → (n == n + 0) ≡ true
    same_uid n = ground arith
get_elem?-burnt burn others uid (suc i) (w ∷ ws) h =
    subst (λ k. get_elem? (burnt burn others k (uid + 1) ws) i ≡ some burn) (omega arith)
      (get_elem?-burnt burn others (uid + 1) i ws (omega (arith, h)))

whole :
    (burn : Ratio) (owner_uid : ℕ) (ws : List ℕ)
    → owner_uid < length ws
    → burn.num ≤ burn.den
    → share_sum burn (other_sum owner_uid 0 ws) owner_uid 0 ws ≡ burn.den * other_sum owner_uid 0 ws
whole burn owner_uid ws inside le =
    share_sum-other_sum burn (other_sum owner_uid 0 ws) owner_uid 0 ws
    ∙ rw (inside_ltb owner_uid (0 + length ws) (omega (arith, inside)), from_zero owner_uid)
        (omega (arith, ap (λ d. d * other_sum owner_uid 0 ws) (the_rest burn.num burn.den le)))
  where
    from_zero : (n : ℕ) → leb 0 n ≡ true
    from_zero n = ground arith

cancel : (d n m : ℕ) → 0 < d → n * d ≡ d * m → n * 1 ≡ 1 * m
cancel d n m h e = omega (arith, eq_of_mul-eq-mul_left d h n m (mul_comm d n ∙ e))

-- When the chain names the owner, the owner has a weight, the burn is from 0 to 1 and another miner has a positive
-- weight, the burn is applied: the owner's weight is the burn, and the new weights add up to 1.
pub apply_burn_to_weights_lem :
    (raw_weights : List ℕ) (hotkeys : List String) (hotkey : String) (owner_uid : ℕ) (burn : Ratio)
    → index_of hotkey hotkeys ≡ some owner_uid
    → owner_uid < length raw_weights
    → IsShare burn
    → 0 < other_sum owner_uid 0 raw_weights
    → (weights : List Ratio) × (apply_burn_to_weights raw_weights hotkeys (some hotkey) burn
        ≡ some weights)
      × (get_elem? weights owner_uid ≡ some burn)
      × SameRatio (total weights) (over 1 1)
unfolding apply_burn_to_weights Option.bind
apply_burn_to_weights_lem raw_weights hotkeys hotkey owner_uid burn known inside (d, le)
      some_weight =
    let others = other_sum owner_uid 0 raw_weights in
    let weights = burnt burn others owner_uid 0 raw_weights in
    (
      weights,
      ground (arith, known, some_weight, other_sum-le owner_uid 0 raw_weights),
      subst (λ k. get_elem? (burnt burn others k 0 raw_weights) owner_uid ≡ some burn) (omega arith)
          (get_elem?-burnt burn others 0 owner_uid raw_weights inside),
      cancel (burn.den * others) (total weights).num (total weights).den
          (pos-mul burn.den others d some_weight)
          (total-burnt burn others owner_uid 0 raw_weights
            ∙ ap (λ k. k * (total weights).den) (whole burn owner_uid raw_weights inside le)),
    )
