-- ===== src/Rewards/Scorer/Ranges.antt =====
-- The ranges over every call.
-- Percentages are at most 100, and no denominator is zero.
use custom_scraper.Prelude.{
  All, All-append, All-get_elem?, All-replicate, Bool, List, [], arith, length, ltb, ltb→lt, none,
  replicate, some, ℕ, ◌&&◌, ◌*◌, ◌-◌, ◌<◌, ◌∷◌, ◌≤◌,
}
use custom_scraper.Ratio.{
  Amount, IsShare, Ratio, exceeds, is_positive, mix, mul, no_amount, over, quotient, sub,
}
use custom_scraper.Ratio.Laws.{
  at_most_one-IsShare, mix-IsShare, mul-IsShare, quotient-IsShare, sub-IsShare,
}
use custom_scraper.Rewards.Scorer.{
  MinerScorer, ValidationResult, after, apply_ondemand_penalty, hundredth, init, lower_credibility,
  on_miner_evaluated, ondemand_max_cred_penalty, raw_score, reset, resize, round_credibility,
  score_index, set_credibility, set_s3_boost, set_scorable_bytes, set_score, total_bytes_validated,
  update_credibility, update_s3_boost_and_cred, valid_bytes,
}
use custom_scraper.Rewards.Scorer.Invariant.{
  IsBoost, IsValid, and_then_keeps, if_keeps, set_credibility-IsValid, set_s3_boost-IsValid,
  set_s3_credibility-IsValid, set_scorable_bytes-IsValid, set_score-IsValid, with_elem_keeps,
}
use custom_scraper.Rewards.Scorer.Runs.{
  Op, evaluation_call, penalty_call, reset_call, resize_call, run, s3_call, step,
}

abbrev pub IsFit : Op → Type 0
IsFit (reset_call uid) = Unit
IsFit (resize_call n) = Unit
IsFit (s3_call uid percentage failure) =
    (0 < percentage.den) × (percentage.num ≤ 100 * percentage.den)
IsFit (penalty_call uid mult_factor) = 0 < mult_factor.den
IsFit (evaluation_call uid model unit current buckets results) = 0 < unit

init-IsValid : (n : ℕ) → IsValid (init n)
unfolding init
init-IsValid n = record {
  rate = (omega arith, omega arith);
  s3_rate = (omega arith, omega arith);
  credible = All-replicate IsShare n (over 0 1) (omega arith, omega arith);
  s3_credible = All-replicate IsShare n (over 3 8) (omega arith, omega arith);
  boosted = All-replicate IsBoost n (over 0 1) (omega arith, omega arith);
  counted = All-replicate (λ a. 0 < a.unit) n no_amount (omega arith);
}

reset-IsValid : (uid : ℕ) (s : MinerScorer) → IsValid s → IsValid (after (reset uid s))
unfolding reset
reset-IsValid uid s h =
    and_then_keeps IsValid (set_score uid no_amount s) _ (set_score-IsValid uid no_amount s h)
      (λ s h.
        and_then_keeps IsValid (set_credibility uid (over 0 1) s) _
          (set_credibility-IsValid uid (over 0 1) s (omega arith, omega arith) h)
          (λ s h.
            and_then_keeps IsValid (set_s3_boost uid (over 0 1) s) _
              (set_s3_boost-IsValid uid (over 0 1) s (omega arith, omega arith) h)
              (λ s h. set_s3_credibility-IsValid uid (over 3 8) s (omega arith, omega arith) h)))

resize-IsValid : (n : ℕ) (s : MinerScorer) → IsValid s → IsValid (after (resize n s))
unfolding resize
resize-IsValid n s h =
    let m = n - length s.scores in
    if_keeps IsValid (ltb n (length s.scores)) _ _ (λ _. h)
      (λ _. record {
        rate = h.rate;
        s3_rate = h.s3_rate;
        credible =
            All-append IsShare s.miner_credibility (replicate m (over 0 1)) h.credible
              (All-replicate IsShare m (over 0 1) (omega arith, omega arith));
        s3_credible =
            All-append IsShare s.s3_credibility (replicate m (over 3 8)) h.s3_credible
              (All-replicate IsShare m (over 3 8) (omega arith, omega arith));
        boosted =
            All-append IsBoost s.s3_boosts (replicate m (over 0 1)) h.boosted
              (All-replicate IsBoost m (over 0 1) (omega arith, omega arith));
        counted =
            All-append (λ a. 0 < a.unit) s.scorable_bytes (replicate m no_amount) h.counted
              (All-replicate (λ a. 0 < a.unit) m no_amount (omega arith));
      })

hundredth-IsShare : (p : Ratio) → 0 < p.den → p.num ≤ 100 * p.den → IsShare (hundredth p)
unfolding hundredth
hundredth-IsShare p d le = (omega arith, le)

mul-IsBoost :
    (p : Ratio) → 0 < p.den → p.num ≤ 100 * p.den → IsBoost (mul (hundredth p) (over 200000000 1))
unfolding hundredth mul
mul-IsBoost p d le = (omega arith, omega arith)

update_s3-IsValid :
    (uid : ℕ) (percentage : Ratio) (failure : Bool) (s : MinerScorer)
    → 0 < percentage.den
    → percentage.num ≤ 100 * percentage.den
    → IsValid s
    → IsValid (after (update_s3_boost_and_cred uid percentage failure s))
unfolding update_s3_boost_and_cred
update_s3-IsValid uid percentage failure s d le h =
    and_then_keeps IsValid (set_s3_boost uid (mul (hundredth percentage) (over 200000000 1)) s) _
      (set_s3_boost-IsValid uid _ s (mul-IsBoost percentage d le) h)
      (λ s h.
        if_keeps IsValid failure _ _
          (λ _. set_s3_credibility-IsValid uid (over 0 1) s (omega arith, omega arith) h)
          (λ _. with_elem_keeps IsValid s.s3_credibility uid s _ h (λ old e.
            set_s3_credibility-IsValid uid _ s
              (at_most_one-IsShare (mix s.s3_cred_alpha (hundredth percentage) old)
                (mix-IsShare s.s3_cred_alpha (hundredth percentage) old h.s3_rate
                  (hundredth-IsShare percentage d le)
                  (All-get_elem? IsShare s.s3_credibility uid old e h.s3_credible)).0)
              h)))

valid_bytes-le :
    (results : List ValidationResult) → valid_bytes results ≤ total_bytes_validated results
unfolding valid_bytes total_bytes_validated
valid_bytes-le [] = omega arith
valid_bytes-le (r ∷ rs) = ground (arith, valid_bytes-le rs)

round_credibility-IsShare : (results : List ValidationResult) → IsShare (round_credibility results)
unfolding round_credibility
round_credibility-IsShare results =
    ground (arith, valid_bytes-le results, ltb→lt 0 (total_bytes_validated results))

update_credibility-IsValid :
    (uid : ℕ) (results : List ValidationResult) (s : MinerScorer)
    → IsValid s
    → IsValid (after (update_credibility uid results s))
unfolding update_credibility
update_credibility-IsValid uid [] s h = h
update_credibility-IsValid uid (r ∷ rs) s h =
    with_elem_keeps IsValid s.miner_credibility uid s _ h (λ old e.
      set_credibility-IsValid uid _ s
        (mix-IsShare s.cred_alpha (round_credibility (r ∷ rs)) old h.rate
          (round_credibility-IsShare (r ∷ rs))
          (All-get_elem? IsShare s.miner_credibility uid old e h.credible))
        h)

sub_ratio-IsShare :
    (old p : Ratio) → IsShare old → 0 < p.den → IsShare (sub old (mul ondemand_max_cred_penalty p))
unfolding mul
sub_ratio-IsShare old p h d = sub-IsShare old (mul ondemand_max_cred_penalty p) h (omega arith)

-- The powers of numbers from 0 to 1 are such numbers; of `root` this is asked.
module _ (power root : Ratio → Ratio)
    (root-IsShare : (r : Ratio) → IsShare r → IsShare (root r)) where
  penalty-IsValid :
      (uid : ℕ) (mult_factor : Ratio) (s : MinerScorer)
      → 0 < mult_factor.den
      → IsValid s
      → IsValid (after (apply_ondemand_penalty power root uid mult_factor s))
  unfolding apply_ondemand_penalty
  penalty-IsValid uid mult_factor s d h =
      with_elem_keeps IsValid s.miner_credibility uid s _ h (λ old e.
        let share =
          sub_ratio-IsShare old mult_factor
            (All-get_elem? IsShare s.miner_credibility uid old e h.credible) d in
        and_then_keeps IsValid (set_credibility uid _ s) _ (set_credibility-IsValid uid _ s share h)
          (λ s h.
            if_keeps IsValid (ltb 0 old.num) _ _
              (λ _.
                with_elem_keeps IsValid s.scores uid s _ h (λ score _. set_score-IsValid uid _ s h))
              (λ _. h)))

  lower_credibility-IsValid :
      (uid : ℕ) (score previous : Amount) (s : MinerScorer)
      → 0 < score.unit
      → 0 < previous.unit
      → IsValid s
      → IsValid (after (lower_credibility power root uid score previous s))
  unfolding lower_credibility
  lower_credibility-IsValid uid score previous s d d' h =
      if_keeps IsValid (is_positive previous && exceeds score previous) _ _
        (λ both. with_elem_keeps IsValid s.miner_credibility uid s _ h (λ cred e.
          set_credibility-IsValid uid _ s
            (mul-IsShare cred (root (quotient previous score))
              (All-get_elem? IsShare s.miner_credibility uid cred e h.credible)
              (root-IsShare (quotient previous score)
                (quotient-IsShare previous score (ground arith) (ground arith) d' d)))
            h))
        (λ _. h)

  score_index-IsValid :
      (uid : ℕ) (score : Amount) (results : List ValidationResult) (s : MinerScorer)
      → 0 < score.unit
      → IsValid s
      → IsValid (after (score_index power root uid score results s))
  unfolding score_index
  score_index-IsValid uid score results s d h =
      with_elem_keeps IsValid s.scorable_bytes uid s _ h (λ previous e.
        and_then_keeps IsValid (lower_credibility power root uid score previous s) _
          (lower_credibility-IsValid uid score previous s d
            (All-get_elem? (λ a. 0 < a.unit) s.scorable_bytes uid previous e h.counted) h)
          (λ s h.
            and_then_keeps IsValid (set_scorable_bytes uid score s) _
              (set_scorable_bytes-IsValid uid score s d h)
              (λ s h. with_elem_keeps IsValid s.s3_boosts uid s _ h (λ boost _.
                with_elem_keeps IsValid s.s3_credibility uid s _ h (λ s3_cred _.
                  and_then_keeps IsValid (update_credibility uid results s) _
                    (update_credibility-IsValid uid results s h)
                    (λ s h.
                      with_elem_keeps IsValid s.miner_credibility uid s _ h
                        (λ cred _. set_score-IsValid uid _ s h)))))))

  step-IsValid :
      (op : Op) (s : MinerScorer) → IsFit op → IsValid s → IsValid (after (step power root op s))
  unfolding step on_miner_evaluated raw_score
  step-IsValid (reset_call uid) s fit h = reset-IsValid uid s h
  step-IsValid (resize_call n) s fit h = resize-IsValid n s h
  step-IsValid (s3_call uid percentage failure) s (d, le) h =
      update_s3-IsValid uid percentage failure s d le h
  step-IsValid (penalty_call uid mult_factor) s d h = penalty-IsValid uid mult_factor s d h
  step-IsValid (evaluation_call uid model unit current none results) s d h =
      set_score-IsValid uid no_amount s h
  step-IsValid (evaluation_call uid model unit current (some buckets) results) s d h =
      score_index-IsValid uid (raw_score model unit current buckets) results s d h

  run_from-IsValid :
      (ops : List Op) (s : MinerScorer) → All IsFit ops → IsValid s → IsValid (run power root ops s)
  unfolding run
  run_from-IsValid [] s fit h = h
  run_from-IsValid (op ∷ ops) s fit h =
      run_from-IsValid ops (after (step power root op s)) fit.1 (step-IsValid op s fit.0 h)

  -- Where the root of a number from 0 to 1 is such a number: after any calls with percentages up to 100 and no zero
  -- denominator, those that raised included, every credibility and every S3 credibility is from 0 to 1 and every S3
  -- boost is from 0 to 200 million.
  pub run-IsValid : (n : ℕ) (ops : List Op) → All IsFit ops → IsValid (run power root ops (init n))
  run-IsValid n ops fit = run_from-IsValid ops (init n) fit (init-IsValid n)
