-- ===== src/Vali/Evaluator/Loop.antt =====
-- The loop from one uid on.
use custom_scraper.Common.Metagraph.{Metagraph, Neuron}
use custom_scraper.Prelude.{
  Bool-cases, Option-cases, String, [], arith, false, inl, inr, length, length-update_at, nat_key,
  none, pair_key, refl, some, string_key, sym, true, update_at, ℕ, ◌+◌, ◌<◌, ◌∙◌, ◌∷◌, ◌≡◌, ◌≢◌,
  ◌≤◌,
}
use custom_scraper.Prelude.Dict.{Dict, lookup, lookup-remove, remove}
use custom_scraper.Ratio.{no_amount, over}
use custom_scraper.Rewards.Scorer.{MinerScorer, starting_credibility, starting_s3_credibility}
use custom_scraper.Rewards.Scorer.Safety.{IsAligned}
use custom_scraper.Storage.Validator.{Miner, RowKey, ValidatorStorage, delete_miner}
use custom_scraper.Storage.Validator.Numbering.{lookup-delete_rows}
use custom_scraper.Vali.Evaluator.{sweep, unqualified}
use custom_scraper.Vali.Evaluator.Sweep.{
  IsSwept, hotkey_replaced, replaced, reset_lem, sweep_step, uid_replaced, unqualified_lem,
}
use mathlib.Core.Path.{subst}

abbrev after_reset : ℕ → MinerScorer → MinerScorer
after_reset uid s = record s {
  scores = update_at uid no_amount s.scores;
  miner_credibility = update_at uid starting_credibility s.miner_credibility;
  s3_boosts = update_at uid (over 0 1) s.s3_boosts;
  s3_credibility = update_at uid starting_s3_credibility s.s3_credibility;
}

after_reset-IsAligned :
    (n uid : ℕ) (s : MinerScorer) → IsAligned n s → IsAligned n (after_reset uid s)
after_reset-IsAligned n uid s h = record {
  of_scores = length-update_at uid no_amount s.scores ∙ h.of_scores;
  of_credibility = length-update_at uid starting_credibility s.miner_credibility ∙ h.of_credibility;
  of_bytes = h.of_bytes;
  of_boosts = length-update_at uid (over 0 1) s.s3_boosts ∙ h.of_boosts;
  of_s3_credibility =
      length-update_at uid starting_s3_credibility s.s3_credibility ∙ h.of_s3_credibility;
}

rows_deleted :
    (hotkey h : String) (m : Miner) (k : RowKey) (s : ValidatorStorage)
    → string_key.same hotkey h ≡ true
    → lookup h s.miners ≡ some m
    → k.0 ≡ m.miner_id
    → lookup k (delete_miner hotkey s).rows ≡ none
unfolding delete_miner
rows_deleted hotkey h m k s same stored own =
    let it : lookup hotkey s.miners ≡ some m =
      subst (λ j. lookup j s.miners ≡ some m) (sym ((string_key.same_iff hotkey h).0 same))
        stored in
    rw (it, delete_miner) (lookup-delete_rows m.miner_id k s.rows ∙ ground (arith, own))

rows_fewer :
    (hotkey : String) (k : RowKey) (s : ValidatorStorage)
    → lookup k s.rows ≡ none
    → lookup k (delete_miner hotkey s).rows ≡ none
unfolding delete_miner
rows_fewer hotkey k s gone = elim (Option-cases (lookup hotkey s.miners)) [
  | inl absent ↦ rw (absent, delete_miner) gone
  | inr (m, stored) ↦
      rw (stored, delete_miner) (lookup-delete_rows m.miner_id k s.rows ∙ ground (arith, gone))
]

rows_kept :
    (hotkey : String) (k : RowKey) (s : ValidatorStorage)
    → ((m : Miner) → lookup hotkey s.miners ≡ some m → k.0 ≢ m.miner_id)
    → lookup k (delete_miner hotkey s).rows ≡ lookup k s.rows
unfolding delete_miner
rows_kept hotkey k s apart = elim (Option-cases (lookup hotkey s.miners)) [
  | inl absent ↦ rw (absent, delete_miner) refl
  | inr (m, stored) ↦
      rw (stored, delete_miner)
        (lookup-delete_rows m.miner_id k s.rows ∙ ground (arith, apart m stored))
]

not_removed :
    (hotkey h : String) (m : Miner) (miners : Dict String Miner)
    → lookup h (remove hotkey miners) ≡ some m
    → (string_key.same hotkey h ≡ false) × (lookup h miners ≡ some m)
not_removed hotkey h m miners stored = ground (arith, stored, lookup-remove hotkey h miners)

kept_step :
    (n uid : ℕ) (old : Neuron) (olds metagraph : Metagraph) (scorer : MinerScorer)
    (storage : ValidatorStorage) (scorer' : MinerScorer) (storage' : ValidatorStorage)
    → replaced uid old.hotkey metagraph ≡ false
    → IsSwept n (uid + 1) olds metagraph scorer scorer' storage storage'
    → IsSwept n uid (old ∷ olds) metagraph scorer scorer' storage storage'
unfolding uid_replaced hotkey_replaced
kept_step n uid old olds metagraph scorer storage scorer' storage' e w = record {
  aligned = w.aligned;
  credibilities = λ j inside. ground (arith, e, w.credibilities j inside);
  scored = λ j inside. ground (arith, e, w.scored j inside);
  kept_miners = λ h. ground (arith, e, w.kept_miners h);
  deleted_rows = λ h m k stored lost own. w.deleted_rows h m k stored (ground (arith, e, lost)) own;
  no_rows = w.no_rows;
  kept_rows =
      λ k apart. w.kept_rows k (λ h m stored lost. apart h m stored (ground (arith, e, lost)));
}

reset_step :
    (n uid : ℕ) (old : Neuron) (olds metagraph : Metagraph) (scorer : MinerScorer)
    (storage : ValidatorStorage) (scorer' : MinerScorer) (storage' : ValidatorStorage)
    → uid < n
    → IsAligned n scorer
    → replaced uid old.hotkey metagraph ≡ true
    → IsSwept n
        (uid + 1)
        olds
        metagraph
        (after_reset uid scorer)
        scorer'
        (delete_miner old.hotkey storage)
        storage'
    → IsSwept n uid (old ∷ olds) metagraph scorer scorer' storage storage'
unfolding uid_replaced hotkey_replaced delete_miner
reset_step n uid old olds metagraph scorer storage scorer' storage' inside h e w = record {
  aligned = w.aligned;
  credibilities = λ j lt.
      sweep_step scorer.miner_credibility scorer'.miner_credibility uid j starting_credibility
        (replaced uid old.hotkey metagraph) (uid_replaced j (uid + 1) olds metagraph) e
        (omega (arith, h.of_credibility, inside)) (w.credibilities j lt);
  scored = λ j lt.
      sweep_step scorer.scores scorer'.scores uid j no_amount (replaced uid old.hotkey metagraph)
        (uid_replaced j (uid + 1) olds metagraph) e (omega (arith, h.of_scores, inside))
        (w.scored j lt);
  kept_miners = λ k. ground (arith, e, w.kept_miners k, lookup-remove old.hotkey k storage.miners);
  deleted_rows = λ h m k stored lost own. elim (Bool-cases (string_key.same old.hotkey h)) [
    | inl same ↦ w.no_rows k (rows_deleted old.hotkey h m k storage same stored own)
    | inr differs ↦
        w.deleted_rows h m k
          (ground (arith, differs, stored, lookup-remove old.hotkey h storage.miners))
          (ground (arith, differs, lost)) own
  ];
  no_rows = λ k gone. w.no_rows k (rows_fewer old.hotkey k storage gone);
  kept_rows = λ k apart.
      w.kept_rows k (λ h m stored lost.
        let differs = not_removed old.hotkey h m storage.miners stored in
        apart h m differs.1 (ground (arith, e, lost)))
      ∙ rows_kept old.hotkey k storage (λ m stored.
        apart old.hotkey m stored (ground (arith, e, string_key.same_iff old.hotkey old.hotkey)));
}

pub sweep_lem :
    (n uid : ℕ) (olds metagraph : Metagraph) (limit : ℕ) (scorer : MinerScorer)
    (storage : ValidatorStorage)
    → IsAligned n scorer
    → uid + length olds ≤ n
    → n ≤ length metagraph
    → (scorer' : MinerScorer) × (storage' : ValidatorStorage) × (sweep uid olds metagraph limit
          (scorer, storage)
        ≡ (true, (scorer', storage')))
      × IsSwept n uid olds metagraph scorer scorer' storage storage'
unfolding sweep uid_replaced hotkey_replaced
sweep_lem n uid [] metagraph limit scorer storage h le le' = (
  scorer,
  storage,
  refl,
  record {
    aligned = h;
    credibilities = λ j lt. refl;
    scored = λ j lt. refl;
    kept_miners = λ k. refl;
    deleted_rows = λ h m k stored lost own. cc;
    no_rows = λ k gone. gone;
    kept_rows = λ k apart. refl;
  },
)
sweep_lem n uid (old ∷ olds) metagraph limit scorer storage h le le' =
    elim (Bool-cases (replaced uid old.hotkey metagraph)) [
      | inl e ↦
          let (scorer', storage', eq, w) =
            sweep_lem n (uid + 1) olds metagraph limit (after_reset uid scorer)
              (delete_miner old.hotkey storage) (after_reset-IsAligned n uid scorer h)
              (omega (arith, le)) le' in
          (
            scorer',
            storage',
            rw (sweep, here, e, reset_lem n uid scorer (omega (arith, le)) h) eq,
            reset_step n uid old olds metagraph scorer storage scorer' storage' (omega (arith, le))
                h e w,
          )
      | inr e ↦
          let (scorer', storage', eq, w) =
            sweep_lem n (uid + 1) olds metagraph limit scorer storage h (omega (arith, le)) le' in
          (
            scorer',
            storage',
            rw (sweep, here, e) eq,
            kept_step n uid old olds metagraph scorer storage scorer' storage' e w,
          )
    ]
  where
    here : unqualified uid old.hotkey metagraph limit ≡ some (replaced uid old.hotkey metagraph)
    here = unqualified_lem uid old.hotkey metagraph limit (omega (arith, le, le'))
