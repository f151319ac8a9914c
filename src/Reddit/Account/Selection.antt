-- ===== src/Reddit/Account/Selection.antt =====
-- The row that the statement of `acquire` selects.
use custom_scraper.Prelude.{
  Option-cases, String, [], arith, false, inl, inr, none, some, string_key, true, ℕ, ◌∷◌, ◌≡◌, ◌≤◌,
}
use custom_scraper.Prelude.Dict.{Dict, IsKeyed, lookup}
use custom_scraper.Reddit.Account.{Account, eligible, select_ready}
use text.Mathlib.TextEquality.{eq_iff}

-- The statement selects nothing exactly when no row is eligible.
pub select_ready-none :
    (now : ℕ) (rows : Dict String Account) (j : String) (b : Account)
    → select_ready now rows ≡ none
    → lookup j rows ≡ some b
    → eligible now b ≡ false
unfolding select_ready lookup
select_ready-none now [] j b h p = cc
select_ready-none now ((i, a) ∷ rows) j b h p = ground (arith, select_ready-none now rows j b)

pub select_ready-eligible :
    (now : ℕ) (rows : Dict String Account) (id : String) (a : Account)
    → IsKeyed rows
    → select_ready now rows ≡ some (id, a)
    → (lookup id rows ≡ some a) × (eligible now a ≡ true)
unfolding select_ready lookup
select_ready-eligible now [] id a k h = cc
select_ready-eligible now ((i, c) ∷ rows) id a k h = elim (Option-cases (select_ready now rows)) [
  | inl e ↦ ground (arith, eq_iff i id)
  | inr ((id', a'), e) ↦
      ground (arith, eq_iff i id, eq_iff i id', select_ready-eligible now rows id' a' k.1 e)
]

-- No eligible row has failed less often than the selected one.
pub select_ready_least :
    (now : ℕ) (rows : Dict String Account) (id : String) (a : Account) (j : String) (b : Account)
    → select_ready now rows ≡ some (id, a)
    → lookup j rows ≡ some b
    → eligible now b ≡ true
    → a.fail_count ≤ b.fail_count
unfolding select_ready lookup
select_ready_least now [] id a j b h p q = cc
select_ready_least now ((i, c) ∷ rows) id a j b h p q =
    elim (Option-cases (select_ready now rows)) [
      | inl e ↦ ground (arith, select_ready-none now rows j b)
      | inr ((id', a'), e) ↦ ground (arith, select_ready_least now rows id' a' j b e)
    ]
