-- ===== src/Rewards/Scorer/Learning.antt =====
-- How fast a credibility follows the results.
use custom_scraper.Prelude.{
  Bool-cases, List, arith, get_elem?, get_elem?_inside, inl, inr, inside_ltb, length, ltb, refl,
  some, sym, update_at, ℕ, ◌*◌, ◌+◌, ◌-◌, ◌<◌, ◌∷◌, ◌≡◌,
}
use custom_scraper.Ratio.{IsShare, Ratio, SameRatio, add, complement, mix, mul, over}
use custom_scraper.Ratio.Laws.{the_rest}
use custom_scraper.Rewards.Scorer.{
  MinerScorer, ValidationResult, done, round_credibility, set_credibility, total_bytes_validated,
  update_credibility, valid_bytes, with_elem,
}
use mathlib.Core.Path.{subst, subst₂}

pass_left :
    (p k t n j : ℕ)
    → ((p + k) * t * ((p + k) * (n + j)) - (p * t * ((p + k) * (n + j)) + k * n * ((p + k) * t)))
        * ((p + k) * (n + j))
      ≡ k * j * ((p + k) * t * ((p + k) * (n + j)))
pass_left p k t n j =
    rw
      (taken_away (k * j * ((p + k) * t)) (p * t * ((p + k) * (n + j)) + k * n * ((p + k) * t))
        ((p + k) * t * ((p + k) * (n + j))) (omega arith))
      (omega arith)
  where
    taken_away : (a b c : ℕ) → c ≡ a + b → c - b ≡ a
    taken_away a b c e = omega arith

-- After a pass, what is missing to 1 has shrunk by the rate.
mix-all :
    (alpha old : Ratio) (t : ℕ)
    → IsShare alpha
    → IsShare old
    → SameRatio (complement (mix alpha (over t t) old)) (mul (complement alpha) (complement old))
unfolding mix mul add complement
mix-all alpha old t (_, la) (_, lo) =
    subst₂
      (λ d c.
        (d * t * (d * c) - (alpha.num * t * (d * c) + (alpha.den - alpha.num) * old.num * (d * t)))
          * (d * c)
        ≡ (alpha.den - alpha.num) * (old.den - old.num) * (d * t * (d * c)))
      (the_rest alpha.num alpha.den la) (the_rest old.num old.den lo)
      (pass_left alpha.num (alpha.den - alpha.num) t old.num (old.den - old.num))

-- After a failure, what is left has shrunk by the rate.
mix-nothing :
    (alpha old : Ratio) (t : ℕ) → SameRatio (mix alpha (over 0 t) old) (mul (complement alpha) old)
unfolding mix mul add complement
mix-nothing alpha old t = omega arith

round_passed :
    (results : List ValidationResult)
    → 0 < total_bytes_validated results
    → valid_bytes results ≡ total_bytes_validated results
    → round_credibility results
      ≡ over (total_bytes_validated results) (total_bytes_validated results)
unfolding round_credibility
round_passed results some_bytes all =
    rw (inside_ltb 0 (total_bytes_validated results) some_bytes, all) refl

round_failed :
    (results : List ValidationResult)
    → valid_bytes results ≡ 0
    → (t : ℕ) × (round_credibility results ≡ over 0 t)
unfolding round_credibility
round_failed results nothing = elim (Bool-cases (ltb 0 (total_bytes_validated results))) [
  | inl e ↦ (total_bytes_validated results, rw (e, nothing) refl)
  | inr e ↦ (1, rw e refl)
]

-- With at least one result, for a miner whose credibility and rate are from 0 to 1, only its credibility changes: if
-- all the bytes that were checked are valid, and there were some, what it lacks to 1 is multiplied by 1 - the rate,
-- and if none is valid, the credibility itself is.
pub update_credibility_lem :
    (uid : ℕ) (r : ValidationResult) (rs : List ValidationResult) (old : Ratio) (s : MinerScorer)
    → get_elem? s.miner_credibility uid ≡ some old
    → IsShare s.cred_alpha
    → IsShare old
    → (new : Ratio) × (update_credibility uid (r ∷ rs) s
        ≡ done (record s { miner_credibility = update_at uid new s.miner_credibility }))
      × (0 < total_bytes_validated (r ∷ rs)
          → valid_bytes (r ∷ rs) ≡ total_bytes_validated (r ∷ rs)
          → SameRatio (complement new) (mul (complement s.cred_alpha) (complement old)))
      × (valid_bytes (r ∷ rs) ≡ 0 → SameRatio new (mul (complement s.cred_alpha) old))
unfolding update_credibility with_elem set_credibility
update_credibility_lem uid r rs old s known rate share =
    let new = mix s.cred_alpha (round_credibility (r ∷ rs)) old in
    (
      new,
      ground (
        arith,
        known,
        inside_ltb uid (length s.miner_credibility)
            (get_elem?_inside s.miner_credibility uid old known),
      ),
      λ some_bytes all.
          subst
            (λ c.
              SameRatio (complement (mix s.cred_alpha c old))
                (mul (complement s.cred_alpha) (complement old)))
            (sym (round_passed (r ∷ rs) some_bytes all))
            (mix-all s.cred_alpha old (total_bytes_validated (r ∷ rs)) rate share),
      λ nothing.
          let (t, e) = round_failed (r ∷ rs) nothing in
          subst (λ c. SameRatio (mix s.cred_alpha c old) (mul (complement s.cred_alpha) old))
            (sym e) (mix-nothing s.cred_alpha old t),
    )
