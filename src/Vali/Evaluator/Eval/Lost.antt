-- ===== src/Vali/Evaluator/Eval/Lost.antt =====
-- An S3 validation that is made in an evaluation which returns early.
use custom_scraper.Prelude.{
  Bool-cases, List, String, [], ap, arith, false, inl, inr, ltb, map, refl, same_refl, some,
  string_key, sym, true, ℕ, ◌-◌, ◌∙◌, ◌∷◌, ◌≡◌,
}
use custom_scraper.Prelude.Dict.{Dict, lookup, lookup-append, lookup-remove, remove}
use custom_scraper.Ratio.{Ratio}
use custom_scraper.Rewards.Jobs.{DataDesirabilityLookup}
use custom_scraper.Rewards.Scorer.{
  Outcome, after, done, on_miner_evaluated, raised, raw_score, score_index,
}
use custom_scraper.Storage.Labels.{AutoIncrementDict}
use custom_scraper.Storage.Validator.Read.{ScorableDataEntityBucket as StoredBucket}
use custom_scraper.Vali.Evaluator.Eval.{
  Answers, S3Info, World, check_bucket, choose_bucket, ended, eval_miner, evaluated,
  failed_validation, is_askable, passes, perform_s3_validation, s3_due, then_run,
  update_and_get_miner_index, update_validation_info, valued,
}
use custom_scraper.Vali.Evaluator.Eval.Kept.{KeepsS3, score_index-KeepsS3}
use custom_scraper.Vali.Evaluator.Eval.Laws.{after_run, found_index}
use mathlib.Core.Path.{subst}

after-then_run :
    (w : World) (o : Outcome) → after_run (then_run w o ended) ≡ record w { scorer = after o }
unfolding then_run
after-then_run w (done s) = refl
after-then_run w (raised s) = refl

-- A validation that is noted is due again when more than 1800 blocks have passed.
s3_due-update_validation_info :
    (hotkey : String) (jobs block later : ℕ) (d : Dict String S3Info)
    → s3_due hotkey later (update_validation_info hotkey jobs block d) ≡ ltb 1800 (later - block)
unfolding s3_due update_validation_info lookup
s3_due-update_validation_info hotkey jobs block later d = ground (
  arith,
  lookup-append hotkey (remove hotkey d)
      ((hotkey, record { job_count = jobs; block = block }) ∷ []),
  lookup-remove hotkey hotkey d,
  same_refl hotkey,
)

module _ (casefold : String → String) (draw : AutoIncrementDict → ℕ) (power root : Ratio → Ratio)
    (hash : List ℕ → String) (normalize : String → String) (model : DataDesirabilityLookup)
    (unit : ℕ) where
  left_by :
      (uid current : ℕ) (buckets : List StoredBucket) (w : World)
      → (after_run (
          evaluated casefold draw power root hash normalize model unit uid current
            (some buckets)
            failed_validation
            w
            ended)).s3_storage
        ≡ w.s3_storage
  unfolding evaluated
  left_by uid current buckets w = ap (λ w. w.s3_storage) (after-then_run w _)

  scored_by :
      (uid current : ℕ) (buckets : List StoredBucket) (w : World)
      → KeepsS3 w.scorer.s3_boosts w.scorer.s3_credibility
          (after_run (
            evaluated casefold draw power root hash normalize model unit uid current
              (some buckets)
              failed_validation
              w
              ended)).scorer
  unfolding evaluated on_miner_evaluated
  scored_by uid current buckets w =
      subst (λ v. KeepsS3 w.scorer.s3_boosts w.scorer.s3_credibility v.scorer)
        (sym (
          after-then_run w (
            score_index power root uid (raw_score model unit current (map valued buckets))
              failed_validation w.scorer)))
        (score_index-KeepsS3 w.scorer.s3_boosts w.scorer.s3_credibility power root uid
          (raw_score model unit current (map valued buckets)) failed_validation w.scorer
          (record { kept_boosts = refl; kept_credibilities = refl }))

  -- When an S3 validation is due and the miner then does not answer, or answers with entities that do not pass, no
  -- boost and no S3 credibility changes, and yet the next validation is due only when more than 1800 blocks have
  -- passed.
  pub eval_miner-perform_s3_validation :
      (uid : ℕ) (hotkey : String) (current_block now current : ℕ) (a : Answers) (w : World)
      (buckets : List StoredBucket) (b : StoredBucket)
      → found_index casefold draw power root hash normalize model unit hotkey now a w ≡ some buckets
      → s3_due hotkey current_block w.s3_storage ≡ true
      → choose_bucket a.chosen_byte buckets ≡ some b
      → passes casefold draw power root hash normalize model unit a.bucket_answer b ≡ false
      → (w' : World) × (after_run (
            eval_miner casefold draw power root hash normalize model unit uid hotkey current_block
              now current a w)
          ≡ w')
        × ((later : ℕ) → s3_due hotkey later w'.s3_storage ≡ ltb 1800 (later - current_block))
        × KeepsS3 w.scorer.s3_boosts w.scorer.s3_credibility w'.scorer
  unfolding eval_miner update_and_get_miner_index perform_s3_validation
  eval_miner-perform_s3_validation uid hotkey current_block now current a w buckets b found due
        chosen fails =
      let updated : World =
        perform_s3_validation hotkey current_block a.s3_answer
          (update_and_get_miner_index casefold draw power root hash normalize model unit hotkey now
            a.index_answer w).1 in
      let due_later : (later : ℕ)
          → s3_due hotkey later updated.s3_storage ≡ ltb 1800 (later - current_block) =
        λ later.
          s3_due-update_validation_info hotkey a.s3_answer.found_jobs current_block later
            w.s3_storage in
      elim (Bool-cases (is_askable b)) [
        | inl fine ↦ (
          after_run (
              evaluated casefold draw power root hash normalize model unit uid current
                (some buckets) failed_validation updated ended),
          rw (eval_miner, found, due, check_bucket, chosen, fine, fails) refl,
          λ later. ap (s3_due hotkey later) (left_by uid current buckets updated) ∙ due_later later,
          scored_by uid current buckets updated,
        )
        | inr bad ↦ (
          updated,
          rw (eval_miner, found, due, check_bucket, chosen, bad) refl,
          due_later,
          record { kept_boosts = refl; kept_credibilities = refl },
        )
      ]
