-- ===== src/Vali/Evaluator/Eval/Laws.antt =====
-- What an evaluation leaves.
use custom_scraper.Prelude.{List, Option, String, false, none, some, true, ℕ, ◌≡◌, ◌⊎◌}
use custom_scraper.Ratio.{Ratio}
use custom_scraper.Rewards.Jobs.{DataDesirabilityLookup}
use custom_scraper.Rewards.Scorer.Safety.{IsAligned}
use custom_scraper.Storage.Labels.{AutoIncrementDict}
use custom_scraper.Storage.Validator.Read.{ScorableDataEntityBucket as StoredBucket}
use custom_scraper.Vali.Evaluator.Eval.{
  Answers, Ran, World, broke, choose_bucket, ended, has_scraper, is_askable, passes,
  update_and_get_miner_index,
}

abbrev pub after_run : Ran → World
after_run (ended w) = w
after_run (broke w) = w

abbrev pub Ends : ℕ → Ran → Type 0
Ends n r = (w : World) × (r ≡ ended w) × IsAligned n w.scorer

module _ (casefold : String → String) (draw : AutoIncrementDict → ℕ) (power root : Ratio → Ratio)
    (hash : List ℕ → String) (normalize : String → String) (model : DataDesirabilityLookup)
    (unit : ℕ) where
  abbrev pub found_index : String → ℕ → Answers → World → Option (List StoredBucket)
  found_index hotkey now a w =
      (update_and_get_miner_index casefold draw power root hash normalize model unit hotkey now
        a.index_answer w).0

  -- A bucket that cannot be asked for, or that passes and whose source has no scraper.
  abbrev pub Unasked : Answers → StoredBucket → Type 0
  Unasked a b =
      (is_askable b ≡ false)
      ⊎ ((passes casefold draw power root hash normalize model unit a.bucket_answer b ≡ true)
          × (has_scraper b.source ≡ false))

  -- The run raises, and leaves the scorer as it was.
  abbrev pub Escapes : World → Ran → Type 0
  Escapes w r = (w' : World) × (r ≡ broke w') × (w'.scorer ≡ w.scorer)

  -- The run ends, or it raises because of the bucket.
  abbrev Checked : ℕ → Answers → StoredBucket → World → Ran → Type 0
  Checked n a b w r = ((Unasked a b → ⊥) × Ends n r) ⊎ (Unasked a b × Escapes w r)

  -- What an evaluation comes to, by the index that was found.
  abbrev pub Evaluates : ℕ → Answers → World → Option (List StoredBucket) → Ran → Type 0
  Evaluates n a w none r = Ends n r
  Evaluates n a w (some buckets) r =
      (b : StoredBucket) × (choose_bucket a.chosen_byte buckets ≡ some b) × Checked n a b w r
