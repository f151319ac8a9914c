-- ===== src/Vali/ValidatorRegistry/Laws.antt =====
-- The time-outs of the validators, and the order in which they are returned.
use custom_scraper.Prelude.{
  Bool-cases, List, [], ap, arith, drop, if◌then◌else◌, inl, inr, leb, length, min, nat_key, refl,
  some, string_key, suc, sym, take, take-append-drop, ℕ, ◌*◌, ◌++◌, ◌+◌, ◌==◌, ◌^◌, ◌∙◌, ◌∷◌, ◌≡◌,
  ◌≤◌,
}
use custom_scraper.Prelude.Dict.{lookup, lookup-modify}
use custom_scraper.Sorting.{sorted, sorted-Perm}
use custom_scraper.Vali.ValidatorRegistry.{
  Validator, ValidatorRegistry, available_uids, get_available_validators, is_available, rotate,
  update_failure, update_validators,
}
use mathlib.Core.List.{Perm, append-nil, perm_middle}
use mathlib.Core.Path.{subst}
use native.Mathlib.Nat.{mul_assoc, pow-suc}
use mathlib.Core.List.Perm

-- A validator after failures in a row; the last one stands first.
unfoldable pub after_errors : List ℕ → Validator → Validator
after_errors [] v = v
after_errors (t ∷ ts) v = update_failure t "error" (after_errors ts v)

-- After failures in a row and nothing else, the time-out of a validator has been multiplied by 4 for each of
-- them, up to a day.
pub timeout-after_errors :
    (ts : List ℕ) (v : Validator)
    → v.timeout ≤ 86400
    → (after_errors ts v).timeout ≡ min (v.timeout * 4 ^ length ts) 86400
unfolding after_errors update_failure
timeout-after_errors [] v h = omega arith
timeout-after_errors (t ∷ ts) v h =
    let more : v.timeout * 4 ^ suc (length ts) ≡ v.timeout * 4 ^ length ts * 4 =
      ap (λ q. v.timeout * q) (pow-suc 4 (length ts))
      ∙ sym (mul_assoc v.timeout (4 ^ length ts) 4) in
    omega (arith, timeout-after_errors ts v h)

-- A validator of the registry that fails is out for its new time-out and no longer, one that answers is
-- available at once, and the others stay as they were.
pub update_validators_lem :
    (now later uid j : ℕ) (reg : ValidatorRegistry) (v : Validator)
    → lookup j reg.validators ≡ some v
    → (w : Validator) × (lookup j (update_validators now uid "error" reg).validators ≡ some w)
      × (is_available later w ≡ (
          if uid == j then leb (now + min (v.timeout * 4) 86400) later else is_available later v))
unfolding update_validators update_failure is_available
update_validators_lem now later uid j reg v h = elim (Bool-cases (uid == j)) [
  | inl same ↦ (
    update_failure now "error" v,
    rw (update_validators, lookup-modify, same, h) refl,
    rw same refl,
  )
  | inr other ↦ (v, rw (update_validators, lookup-modify, other) h, rw other refl)
]

append-Perm : (xs ys : List ℕ) → Perm (xs ++ ys) (ys ++ xs)
append-Perm [] ys = subst (Perm ys) (sym (append-nil ys)) (Perm.refl ys)
append-Perm (x ∷ xs) ys =
    Perm.trans (Perm.cons x (append-Perm xs ys)) (Perm.symm (perm_middle ys xs))

rotated-Perm : (index : ℕ) (us : List ℕ) → Perm us (drop index us ++ take index us)
rotated-Perm index us =
    subst (λ vs. Perm vs (drop index us ++ take index us)) (take-append-drop index us)
      (append-Perm (take index us) (drop index us))

-- The validators that are returned are the available ones, each as often as it is in the registry.
pub get_available_validators-Perm :
    (now : ℕ) (reg : ValidatorRegistry)
    → Perm (available_uids now reg.validators) (get_available_validators now reg).0
unfolding get_available_validators rotate
get_available_validators-Perm now reg =
    Perm.trans (sorted-Perm (available_uids now reg.validators))
      (go (sorted (available_uids now reg.validators)))
  where
    go :
        (us : List ℕ)
        → Perm us
            (elim us as (λ x. List ℕ × ValidatorRegistry) [
              | [] ↦ ([], reg)
              | u ∷ rest ↦
                  let index : ℕ =
                    if leb (length (u ∷ rest)) reg.current_index then 0 else reg.current_index in
                  let (ordered, next_index) = rotate index (u ∷ rest) in
                  (ordered, record reg { current_index = next_index })
            ]).0
    go [] = Perm.refl []
    go (u ∷ rest) = rotated-Perm _ (u ∷ rest)
