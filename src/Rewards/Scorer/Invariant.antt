-- ===== src/Rewards/Scorer/Invariant.antt =====
-- The ranges of the numbers that the scorer keeps.
use custom_scraper.Prelude.{
  All, All-update_at, Bool, List, Option, false, get_elem?, if◌then◌else◌, length, ltb, none, refl,
  some, true, ℕ, ◌*◌, ◌<◌, ◌≡◌, ◌≤◌,
}
use custom_scraper.Ratio.{Amount, IsShare, Ratio}
use custom_scraper.Rewards.Scorer.{
  MinerScorer, Outcome, after, and_then, done, raised, set_credibility, set_s3_boost,
  set_s3_credibility, set_scorable_bytes, set_score, with_elem,
}

abbrev pub IsBoost : Ratio → Type 0
IsBoost b = (0 < b.den) × (b.num ≤ 200000000 * b.den)

pub record IsValid (s : MinerScorer) : Type 0 where
  pub rate : IsShare s.cred_alpha
  pub s3_rate : IsShare s.s3_cred_alpha
  pub credible : All IsShare s.miner_credibility
  pub s3_credible : All IsShare s.s3_credibility
  pub boosted : All IsBoost s.s3_boosts
  pub counted : All (λ a. 0 < a.unit) s.scorable_bytes

-- What holds after each part of a method holds after the method.
module _ {κ} (P : MinerScorer → Type κ) where
  pub and_then_keeps :
      (o : Outcome) (f : MinerScorer → Outcome)
      → P (after o)
      → ((s : MinerScorer) → P s → P (after (f s)))
      → P (after (and_then o f))
  unfolding and_then
  and_then_keeps (done s) f p q = q s p
  and_then_keeps (raised s) f p q = p

  pub with_elem_keeps {ℓ} :
      {A : Type ℓ} (xs : List A) (uid : ℕ) (s : MinerScorer) (f : A → Outcome)
      → P s
      → ((a : A) → get_elem? xs uid ≡ some a → P (after (f a)))
      → P (after (with_elem xs uid s f))
  unfolding with_elem
  with_elem_keeps {A = A} xs uid s f p q = go (get_elem? xs uid) refl
    where
      go :
          (o : Option A)
          → get_elem? xs uid ≡ o
          → P (after (elim o [ none ↦ raised s | some a ↦ f a ]))
      go none e = p
      go (some a) e = q a e

  pub if_keeps :
      (b : Bool) (x y : Outcome)
      → (b ≡ true → P (after x))
      → (b ≡ false → P (after y))
      → P (after (if b then x else y))
  if_keeps true x y p q = p refl
  if_keeps false x y p q = q refl

pub set_score-IsValid :
    (uid : ℕ) (v : Amount) (s : MinerScorer) → IsValid s → IsValid (after (set_score uid v s))
unfolding set_score
set_score-IsValid uid v s h =
    if_keeps IsValid (ltb uid (length s.scores)) _ _
      (λ _. record {
        rate = h.rate;
        s3_rate = h.s3_rate;
        credible = h.credible;
        s3_credible = h.s3_credible;
        boosted = h.boosted;
        counted = h.counted;
      })
      (λ _. h)

pub set_credibility-IsValid :
    (uid : ℕ) (v : Ratio) (s : MinerScorer)
    → IsShare v
    → IsValid s
    → IsValid (after (set_credibility uid v s))
unfolding set_credibility
set_credibility-IsValid uid v s p h =
    if_keeps IsValid (ltb uid (length s.miner_credibility)) _ _
      (λ _. record {
        rate = h.rate;
        s3_rate = h.s3_rate;
        credible = All-update_at IsShare uid v s.miner_credibility p h.credible;
        s3_credible = h.s3_credible;
        boosted = h.boosted;
        counted = h.counted;
      })
      (λ _. h)

pub set_scorable_bytes-IsValid :
    (uid : ℕ) (v : Amount) (s : MinerScorer)
    → 0 < v.unit
    → IsValid s
    → IsValid (after (set_scorable_bytes uid v s))
unfolding set_scorable_bytes
set_scorable_bytes-IsValid uid v s p h =
    if_keeps IsValid (ltb uid (length s.scorable_bytes)) _ _
      (λ _. record {
        rate = h.rate;
        s3_rate = h.s3_rate;
        credible = h.credible;
        s3_credible = h.s3_credible;
        boosted = h.boosted;
        counted = All-update_at (λ a. 0 < a.unit) uid v s.scorable_bytes p h.counted;
      })
      (λ _. h)

pub set_s3_boost-IsValid :
    (uid : ℕ) (v : Ratio) (s : MinerScorer)
    → IsBoost v
    → IsValid s
    → IsValid (after (set_s3_boost uid v s))
unfolding set_s3_boost
set_s3_boost-IsValid uid v s p h =
    if_keeps IsValid (ltb uid (length s.s3_boosts)) _ _
      (λ _. record {
        rate = h.rate;
        s3_rate = h.s3_rate;
        credible = h.credible;
        s3_credible = h.s3_credible;
        boosted = All-update_at IsBoost uid v s.s3_boosts p h.boosted;
        counted = h.counted;
      })
      (λ _. h)

pub set_s3_credibility-IsValid :
    (uid : ℕ) (v : Ratio) (s : MinerScorer)
    → IsShare v
    → IsValid s
    → IsValid (after (set_s3_credibility uid v s))
unfolding set_s3_credibility
set_s3_credibility-IsValid uid v s p h =
    if_keeps IsValid (ltb uid (length s.s3_credibility)) _ _
      (λ _. record {
        rate = h.rate;
        s3_rate = h.s3_rate;
        credible = h.credible;
        s3_credible = All-update_at IsShare uid v s.s3_credibility p h.s3_credible;
        boosted = h.boosted;
        counted = h.counted;
      })
      (λ _. h)
