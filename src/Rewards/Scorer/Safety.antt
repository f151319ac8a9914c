-- ===== src/Rewards/Scorer/Safety.antt =====
-- The lengths of the five lists, and which calls raise.
use custom_scraper.Prelude.{
  Bool, List, [], arith, false, get_elem?_lt, if◌then◌else◌, inside_ltb, length, length-update_at,
  ltb, none, refl, some, sym, true, ℕ, ◌&&◌, ◌<◌, ◌∙◌, ◌∷◌, ◌≡◌, ◌≤◌,
}
use custom_scraper.Ratio.{Amount, Ratio, exceeds, is_positive}
use custom_scraper.Rewards.Scorer.{
  MinerScorer, Outcome, ValidationResult, and_then, apply_ondemand_penalty, done, lower_credibility,
  raised, reset, score_index, set_credibility, set_s3_boost, set_s3_credibility, set_scorable_bytes,
  set_score, update_credibility, update_s3_boost_and_cred, with_elem,
}
use mathlib.Core.Path.{subst}

pub record IsAligned (n : ℕ) (s : MinerScorer) : Type 0 where
  pub of_scores : length s.scores ≡ n
  pub of_credibility : length s.miner_credibility ≡ n
  pub of_bytes : length s.scorable_bytes ≡ n
  pub of_boosts : length s.s3_boosts ≡ n
  pub of_s3_credibility : length s.s3_credibility ≡ n

-- The method returns, with lists of this length.
abbrev pub Succeeds : ℕ → Outcome → Type 0
Succeeds n o = (s : MinerScorer) × (o ≡ done s) × IsAligned n s

pub and_then-Succeeds :
    (n m : ℕ) (o : Outcome) (f : MinerScorer → Outcome)
    → Succeeds n o
    → ((s : MinerScorer) → IsAligned n s → Succeeds m (f s))
    → Succeeds m (and_then o f)
unfolding and_then
and_then-Succeeds n m o f (s, e, h) q = subst (λ o. Succeeds m (and_then o f)) (sym e) (q s h)

with_elem-Succeeds {ℓ} :
    {A : Type ℓ} (n uid : ℕ) (xs : List A) (s : MinerScorer) (f : A → Outcome)
    → length xs ≡ n
    → uid < n
    → ((a : A) → Succeeds n (f a))
    → Succeeds n (with_elem xs uid s f)
unfolding with_elem
with_elem-Succeeds n uid xs s f e lt q =
    let (a, known) = get_elem?_lt xs uid (omega (arith, e, lt)) in
    subst (λ o. Succeeds n (elim o [ none ↦ raised s | some a ↦ f a ])) (sym known) (q a)

write-Succeeds :
    (n uid m : ℕ) (s t : MinerScorer)
    → m ≡ n
    → uid < n
    → IsAligned n t
    → Succeeds n (if ltb uid m then done t else raised s)
write-Succeeds n uid m s t e lt h =
    subst (λ b. Succeeds n (if b then done t else raised s))
      (sym (inside_ltb uid m (omega (arith, e, lt)))) (t, refl, h)

module _ (n uid : ℕ) (inside : uid < n) where
  pub set_score-Succeeds :
      (v : Amount) (s : MinerScorer) → IsAligned n s → Succeeds n (set_score uid v s)
  unfolding set_score
  set_score-Succeeds v s h = write-Succeeds n uid (length s.scores) s _ h.of_scores inside (record {
    of_scores = length-update_at uid v s.scores ∙ h.of_scores;
    of_credibility = h.of_credibility;
    of_bytes = h.of_bytes;
    of_boosts = h.of_boosts;
    of_s3_credibility = h.of_s3_credibility;
  })

  set_credibility-Succeeds :
      (v : Ratio) (s : MinerScorer) → IsAligned n s → Succeeds n (set_credibility uid v s)
  unfolding set_credibility
  set_credibility-Succeeds v s h =
      write-Succeeds n uid (length s.miner_credibility) s _ h.of_credibility inside (record {
        of_scores = h.of_scores;
        of_credibility = length-update_at uid v s.miner_credibility ∙ h.of_credibility;
        of_bytes = h.of_bytes;
        of_boosts = h.of_boosts;
        of_s3_credibility = h.of_s3_credibility;
      })

  set_scorable_bytes-Succeeds :
      (v : Amount) (s : MinerScorer) → IsAligned n s → Succeeds n (set_scorable_bytes uid v s)
  unfolding set_scorable_bytes
  set_scorable_bytes-Succeeds v s h =
      write-Succeeds n uid (length s.scorable_bytes) s _ h.of_bytes inside (record {
        of_scores = h.of_scores;
        of_credibility = h.of_credibility;
        of_bytes = length-update_at uid v s.scorable_bytes ∙ h.of_bytes;
        of_boosts = h.of_boosts;
        of_s3_credibility = h.of_s3_credibility;
      })

  set_s3_boost-Succeeds :
      (v : Ratio) (s : MinerScorer) → IsAligned n s → Succeeds n (set_s3_boost uid v s)
  unfolding set_s3_boost
  set_s3_boost-Succeeds v s h =
      write-Succeeds n uid (length s.s3_boosts) s _ h.of_boosts inside (record {
        of_scores = h.of_scores;
        of_credibility = h.of_credibility;
        of_bytes = h.of_bytes;
        of_boosts = length-update_at uid v s.s3_boosts ∙ h.of_boosts;
        of_s3_credibility = h.of_s3_credibility;
      })

  set_s3_credibility-Succeeds :
      (v : Ratio) (s : MinerScorer) → IsAligned n s → Succeeds n (set_s3_credibility uid v s)
  unfolding set_s3_credibility
  set_s3_credibility-Succeeds v s h =
      write-Succeeds n uid (length s.s3_credibility) s _ h.of_s3_credibility inside (record {
        of_scores = h.of_scores;
        of_credibility = h.of_credibility;
        of_bytes = h.of_bytes;
        of_boosts = h.of_boosts;
        of_s3_credibility = length-update_at uid v s.s3_credibility ∙ h.of_s3_credibility;
      })

  pub reset-Succeeds : (s : MinerScorer) → IsAligned n s → Succeeds n (reset uid s)
  unfolding reset
  reset-Succeeds s h = and_then-Succeeds n n _ _ (set_score-Succeeds _ s h) (λ s h.
      and_then-Succeeds n n _ _ (set_credibility-Succeeds _ s h) (λ s h.
        and_then-Succeeds n n _ _ (set_s3_boost-Succeeds _ s h)
          (λ s h. set_s3_credibility-Succeeds _ s h)))

  if_Succeeds :
      (b : Bool) (x y : Outcome) → Succeeds n x → Succeeds n y → Succeeds n (if b then x else y)
  if_Succeeds true x y p q = p
  if_Succeeds false x y p q = q

  pub update_s3-Succeeds :
      (percentage : Ratio) (failure : Bool) (s : MinerScorer)
      → IsAligned n s
      → Succeeds n (update_s3_boost_and_cred uid percentage failure s)
  unfolding update_s3_boost_and_cred
  update_s3-Succeeds percentage failure s h =
      and_then-Succeeds n n _ _ (set_s3_boost-Succeeds _ s h) (λ s h.
        if_Succeeds failure _ _ (set_s3_credibility-Succeeds _ s h) (
          with_elem-Succeeds n uid s.s3_credibility s _ h.of_s3_credibility inside
            (λ old. set_s3_credibility-Succeeds _ s h)))

  update_credibility-Succeeds :
      (results : List ValidationResult) (s : MinerScorer)
      → 0 < length results
      → IsAligned n s
      → Succeeds n (update_credibility uid results s)
  unfolding update_credibility
  update_credibility-Succeeds [] s some_results h = elim (none_left some_results) [ ]
    where
      none_left : 0 < 0 → 1 ≤ 0
      none_left h = h
  update_credibility-Succeeds (r ∷ rs) s some_results h =
      with_elem-Succeeds n uid s.miner_credibility s _ h.of_credibility inside
        (λ old. set_credibility-Succeeds _ s h)

  module _ (power root : Ratio → Ratio) where
    pub penalty-Succeeds :
        (mult_factor : Ratio) (s : MinerScorer)
        → IsAligned n s
        → Succeeds n (apply_ondemand_penalty power root uid mult_factor s)
    unfolding apply_ondemand_penalty
    penalty-Succeeds mult_factor s h =
        with_elem-Succeeds n uid s.miner_credibility s _ h.of_credibility inside (λ old.
          and_then-Succeeds n n _ _ (set_credibility-Succeeds _ s h) (λ s h.
            if_Succeeds (ltb 0 old.num) _ _
              (with_elem-Succeeds n uid s.scores s _ h.of_scores inside
                (λ score. set_score-Succeeds _ s h))
              (s, refl, h)))

    pub score_index-Succeeds :
        (score : Amount) (results : List ValidationResult) (s : MinerScorer)
        → 0 < length results
        → IsAligned n s
        → Succeeds n (score_index power root uid score results s)
    unfolding score_index lower_credibility
    score_index-Succeeds score results s given h =
        with_elem-Succeeds n uid s.scorable_bytes s _ h.of_bytes inside (λ previous.
          and_then-Succeeds n n _ _
            (if_Succeeds (is_positive previous && exceeds score previous) _ _
              (with_elem-Succeeds n uid s.miner_credibility s _ h.of_credibility inside
                (λ cred. set_credibility-Succeeds _ s h))
              (s, refl, h))
            (λ s h. and_then-Succeeds n n _ _ (set_scorable_bytes-Succeeds score s h) (λ s h.
              with_elem-Succeeds n uid s.s3_boosts s _ h.of_boosts inside (λ boost.
                with_elem-Succeeds n uid s.s3_credibility s _ h.of_s3_credibility inside (λ s3_cred.
                  and_then-Succeeds n n _ _ (update_credibility-Succeeds results s given h) (λ s h.
                    with_elem-Succeeds n uid s.miner_credibility s _ h.of_credibility inside
                      (λ cred. set_score-Succeeds _ s h)))))))
