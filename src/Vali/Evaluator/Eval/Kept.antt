-- ===== src/Vali/Evaluator/Eval/Kept.antt =====
-- What the scoring of an index does not touch.
use custom_scraper.Prelude.{List, [], length, ltb, ℕ, ◌&&◌, ◌∷◌, ◌≡◌}
use custom_scraper.Ratio.{Amount, Ratio, exceeds, is_positive}
use custom_scraper.Rewards.Scorer.{
  MinerScorer, ValidationResult, after, lower_credibility, score_index, set_credibility,
  set_scorable_bytes, set_score, update_credibility,
}
use custom_scraper.Rewards.Scorer.Invariant.{and_then_keeps, if_keeps, with_elem_keeps}

-- The S3 numbers stay as they are.
module _ (boosts credibilities : List Ratio) where
  pub record KeepsS3 (s : MinerScorer) : Type 0 where
    pub kept_boosts : s.s3_boosts ≡ boosts
    pub kept_credibilities : s.s3_credibility ≡ credibilities

  set_score-KeepsS3 :
      (uid : ℕ) (v : Amount) (s : MinerScorer) → KeepsS3 s → KeepsS3 (after (set_score uid v s))
  unfolding set_score
  set_score-KeepsS3 uid v s h =
      if_keeps KeepsS3 (ltb uid (length s.scores)) _ _
        (λ _. record { kept_boosts = h.kept_boosts; kept_credibilities = h.kept_credibilities })
        (λ _. h)

  set_credibility-KeepsS3 :
      (uid : ℕ) (v : Ratio) (s : MinerScorer)
      → KeepsS3 s
      → KeepsS3 (after (set_credibility uid v s))
  unfolding set_credibility
  set_credibility-KeepsS3 uid v s h =
      if_keeps KeepsS3 (ltb uid (length s.miner_credibility)) _ _
        (λ _. record { kept_boosts = h.kept_boosts; kept_credibilities = h.kept_credibilities })
        (λ _. h)

  set_scorable_bytes-KeepsS3 :
      (uid : ℕ) (v : Amount) (s : MinerScorer)
      → KeepsS3 s
      → KeepsS3 (after (set_scorable_bytes uid v s))
  unfolding set_scorable_bytes
  set_scorable_bytes-KeepsS3 uid v s h =
      if_keeps KeepsS3 (ltb uid (length s.scorable_bytes)) _ _
        (λ _. record { kept_boosts = h.kept_boosts; kept_credibilities = h.kept_credibilities })
        (λ _. h)

  update_credibility-KeepsS3 :
      (uid : ℕ) (results : List ValidationResult) (s : MinerScorer)
      → KeepsS3 s
      → KeepsS3 (after (update_credibility uid results s))
  unfolding update_credibility
  update_credibility-KeepsS3 uid [] s h = h
  update_credibility-KeepsS3 uid (r ∷ rs) s h =
      with_elem_keeps KeepsS3 s.miner_credibility uid s _ h
        (λ old _. set_credibility-KeepsS3 uid _ s h)

  module _ (power root : Ratio → Ratio) where
    lower_credibility-KeepsS3 :
        (uid : ℕ) (score previous : Amount) (s : MinerScorer)
        → KeepsS3 s
        → KeepsS3 (after (lower_credibility power root uid score previous s))
    unfolding lower_credibility
    lower_credibility-KeepsS3 uid score previous s h =
        if_keeps KeepsS3 (is_positive previous && exceeds score previous) _ _
          (λ _.
            with_elem_keeps KeepsS3 s.miner_credibility uid s _ h
              (λ cred _. set_credibility-KeepsS3 uid _ s h))
          (λ _. h)

    pub score_index-KeepsS3 :
        (uid : ℕ) (score : Amount) (results : List ValidationResult) (s : MinerScorer)
        → KeepsS3 s
        → KeepsS3 (after (score_index power root uid score results s))
    unfolding score_index
    score_index-KeepsS3 uid score results s h =
        with_elem_keeps KeepsS3 s.scorable_bytes uid s _ h (λ previous _.
          and_then_keeps KeepsS3 (lower_credibility power root uid score previous s) _
            (lower_credibility-KeepsS3 uid score previous s h)
            (λ s h.
              and_then_keeps KeepsS3 (set_scorable_bytes uid score s) _
                (set_scorable_bytes-KeepsS3 uid score s h)
                (λ s h. with_elem_keeps KeepsS3 s.s3_boosts uid s _ h (λ boost _.
                  with_elem_keeps KeepsS3 s.s3_credibility uid s _ h (λ s3_cred _.
                    and_then_keeps KeepsS3 (update_credibility uid results s) _
                      (update_credibility-KeepsS3 uid results s h)
                      (λ s h.
                        with_elem_keeps KeepsS3 s.miner_credibility uid s _ h
                          (λ cred _. set_score-KeepsS3 uid _ s h)))))))
