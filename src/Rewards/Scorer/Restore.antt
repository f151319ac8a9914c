-- ===== src/Rewards/Scorer/Restore.antt =====
-- A scorer whose state was saved, in a new process.
use custom_scraper.Prelude.{
  if◌then◌else◌, ltb, not_below, refl, replicate, sym, ℕ, ◌++◌, ◌-◌, ◌≡◌, ◌≤◌,
}
use custom_scraper.Ratio.{no_amount, over}
use custom_scraper.Rewards.Scorer.{
  MinerScorer, done, grow, init, load_state, raised, resize, save_state, starting_credibility,
  starting_s3_credibility,
}
use custom_scraper.Rewards.Scorer.Safety.{IsAligned}
use mathlib.Core.Path.{subst}

-- When a scorer of m neurons was saved, and a new one of n, not fewer, loads it and is resized to n, the scores,
-- credibilities and boosts are those that were saved, with starting values behind them; of the raw scores nothing is
-- left: all are zero, and there are n - m of them too many.
pub resize-load_state :
    (n m : ℕ) (s : MinerScorer)
    → IsAligned m s
    → m ≤ n
    → (t : MinerScorer) × (resize n (load_state (save_state s) (init n)) ≡ done t)
      × (t.scores ≡ s.scores ++ replicate (n - m) no_amount)
      × (t.miner_credibility ≡ s.miner_credibility ++ replicate (n - m) starting_credibility)
      × (t.s3_boosts ≡ s.s3_boosts ++ replicate (n - m) (over 0 1))
      × (t.s3_credibility ≡ s.s3_credibility ++ replicate (n - m) starting_s3_credibility)
      × (t.scorable_bytes ≡ replicate n no_amount ++ replicate (n - m) no_amount)
unfolding resize grow load_state save_state init
resize-load_state n m s h le =
    let loaded = load_state (save_state s) (init n) in
    (
      grow (n - m) loaded,
      subst
          (λ k.
            (if ltb n k then raised loaded else done (grow (n - k) loaded))
            ≡ done (grow (n - m) loaded))
          (sym h.of_scores) (rw (not_below n m le) refl),
      refl,
      refl,
      refl,
      refl,
      refl,
    )
