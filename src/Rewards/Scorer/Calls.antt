-- ===== src/Rewards/Scorer/Calls.antt =====
-- Sequences of calls that do not raise.
use custom_scraper.Prelude.{
  List, [], arith, length, length-append, length-replicate, none, not_below, refl, replicate, some,
  ℕ, ◌++◌, ◌-◌, ◌<◌, ◌∷◌, ◌≡◌, ◌≤◌,
}
use custom_scraper.Ratio.{Ratio, no_amount, over}
use custom_scraper.Rewards.Scorer.{
  MinerScorer, Outcome, and_then, done, grow, init, on_miner_evaluated, raw_score, resize,
}
use custom_scraper.Rewards.Scorer.Runs.{
  Op, evaluation_call, penalty_call, reset_call, resize_call, s3_call, step,
}
use custom_scraper.Rewards.Scorer.Safety.{
  IsAligned, Succeeds, and_then-Succeeds, penalty-Succeeds, reset-Succeeds, score_index-Succeeds,
  set_score-Succeeds, update_s3-Succeeds,
}

grown :
    {A : Type 0} (n m k : ℕ) (xs : List A) (v : A)
    → length xs ≡ n
    → k ≡ n
    → n ≤ m
    → length (xs ++ replicate (m - k) v) ≡ m
grown n m k xs v e e' le =
    omega (arith, length-append xs (replicate (m - k) v), length-replicate (m - k) v, e, e', le)

pub grow-IsAligned :
    (n m : ℕ) (s : MinerScorer) → n ≤ m → IsAligned n s → IsAligned m (grow (m - length s.scores) s)
unfolding grow
grow-IsAligned n m s le h = record {
  of_scores = grown n m (length s.scores) s.scores no_amount h.of_scores h.of_scores le;
  of_credibility =
      grown n m (length s.scores) s.miner_credibility (over 0 1) h.of_credibility h.of_scores le;
  of_bytes = grown n m (length s.scores) s.scorable_bytes no_amount h.of_bytes h.of_scores le;
  of_boosts = grown n m (length s.scores) s.s3_boosts (over 0 1) h.of_boosts h.of_scores le;
  of_s3_credibility =
      grown n m (length s.scores) s.s3_credibility (over 3 8) h.of_s3_credibility h.of_scores le;
}

pub resize-grow :
    (n m : ℕ) (s : MinerScorer)
    → n ≤ m
    → IsAligned n s
    → resize m s ≡ done (grow (m - length s.scores) s)
unfolding resize
resize-grow n m s le h = rw (not_below m (length s.scores) (omega (arith, h.of_scores, le))) refl

resize-Succeeds : (n m : ℕ) (s : MinerScorer) → n ≤ m → IsAligned n s → Succeeds m (resize m s)
resize-Succeeds n m s le h = (_, resize-grow n m s le h, grow-IsAligned n m s le h)

-- The uid is inside, an index comes with a result, and the size does not shrink.
abbrev pub IsCallable : ℕ → Op → Type 0
IsCallable n (reset_call uid) = uid < n
IsCallable n (resize_call m) = n ≤ m
IsCallable n (s3_call uid percentage failure) = uid < n
IsCallable n (penalty_call uid mult_factor) = uid < n
IsCallable n (evaluation_call uid model unit current none results) = uid < n
IsCallable n (evaluation_call uid model unit current (some buckets) results) =
    (uid < n) × (0 < length results)

-- The number of neurons after a call.
abbrev pub neurons_after : ℕ → Op → ℕ
neurons_after n (resize_call m) = m
neurons_after n (reset_call uid) = n
neurons_after n (s3_call uid percentage failure) = n
neurons_after n (penalty_call uid mult_factor) = n
neurons_after n (evaluation_call uid model unit current buckets results) = n

abbrev pub AreCallable : ℕ → List Op → Type 0
AreCallable n [] = Unit
AreCallable n (op ∷ ops) = IsCallable n op × AreCallable (neurons_after n op) ops

abbrev pub neurons : ℕ → List Op → ℕ
neurons n [] = n
neurons n (op ∷ ops) = neurons (neurons_after n op) ops

init-IsAligned : (n : ℕ) → IsAligned n (init n)
unfolding init
init-IsAligned n = record {
  of_scores = length-replicate n no_amount;
  of_credibility = length-replicate n (over 0 1);
  of_bytes = length-replicate n no_amount;
  of_boosts = length-replicate n (over 0 1);
  of_s3_credibility = length-replicate n (over 3 8);
}

module _ (power root : Ratio → Ratio) where
  -- The calls one after another, up to the first that raises.
  unfoldable pub run_all : List Op → MinerScorer → Outcome
  unfolding and_then
  run_all [] s = done s
  run_all (op ∷ ops) s = and_then (step power root op s) (λ s. run_all ops s)

  pub step-Succeeds :
      (n : ℕ) (op : Op) (s : MinerScorer)
      → IsCallable n op
      → IsAligned n s
      → Succeeds (neurons_after n op) (step power root op s)
  unfolding step on_miner_evaluated
  step-Succeeds n (reset_call uid) s c h = reset-Succeeds n uid c s h
  step-Succeeds n (resize_call m) s c h = resize-Succeeds n m s c h
  step-Succeeds n (s3_call uid percentage failure) s c h =
      update_s3-Succeeds n uid c percentage failure s h
  step-Succeeds n (penalty_call uid mult_factor) s c h =
      penalty-Succeeds n uid c power root mult_factor s h
  step-Succeeds n (evaluation_call uid model unit current none results) s c h =
      set_score-Succeeds n uid c no_amount s h
  step-Succeeds n (evaluation_call uid model unit current (some buckets) results) s (c, given) h =
      score_index-Succeeds n uid c power root (raw_score model unit current buckets) results s given
        h

  run_from_Succeeds :
      (n : ℕ) (ops : List Op) (s : MinerScorer)
      → AreCallable n ops
      → IsAligned n s
      → Succeeds (neurons n ops) (run_all ops s)
  unfolding run_all
  run_from_Succeeds n [] s c h = (s, refl, h)
  run_from_Succeeds n (op ∷ ops) s c h =
      and_then-Succeeds (neurons_after n op) (neurons (neurons_after n op) ops)
        (step power root op s) _ (step-Succeeds n op s c.0 h)
        (λ s h. run_from_Succeeds (neurons_after n op) ops s c.1 h)

  -- No call of a sequence raises when each uid is below the number of neurons at its time, each evaluation of an
  -- index has a result and no resize shrinks, and then all five lists have the number of neurons of the last resize.
  pub run_all-Succeeds :
      (n : ℕ) (ops : List Op) → AreCallable n ops → Succeeds (neurons n ops) (run_all ops (init n))
  run_all-Succeeds n ops c = run_from_Succeeds n ops (init n) c (init-IsAligned n)
