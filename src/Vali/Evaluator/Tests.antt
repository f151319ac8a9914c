-- ===== src/Vali/Evaluator/Tests.antt =====
-- Two neurons, one of which is replaced, and a third that is new.
use custom_scraper.Common.Metagraph.{Metagraph, Neuron, get_miner_uids}
use custom_scraper.Prelude.{
  String, [], arith, false, get_elem?, if◌then◌else◌, nat_key, none, pair_key, refl, replicate,
  some, string_key, true, ℕ, ◌<◌, ◌∷◌, ◌≡◌, ◌≢◌,
}
use custom_scraper.Prelude.Dict.{lookup}
use custom_scraper.Ratio.{no_amount}
use custom_scraper.Rewards.Scorer.{init, starting_credibility}
use custom_scraper.Rewards.Scorer.Safety.{IsAligned}
use custom_scraper.Sorting.{sorted}
use custom_scraper.Storage.Labels.{empty}
use custom_scraper.Storage.Validator.{Miner, RowKey, ValidatorStorage}
use custom_scraper.Vali.Evaluator.{MinerEvaluator, finished, on_metagraph_updated}
use custom_scraper.Vali.Evaluator.Sweep.{hotkey_replaced, replaced, uid_replaced}
use custom_scraper.Vali.Evaluator.Update.{on_metagraph_updated_lem}

abbrev miner_of : String → Neuron
miner_of hotkey = record { hotkey = hotkey; validator_permit = false; stake = 0 }

abbrev stored : ValidatorStorage
stored = record {
  miners =
      ("a", record { miner_id = 1; last_updated = 5 })
      ∷ ("b", record { miner_id = 2; last_updated = 5 })
      ∷ [];
  rows = ((1, (1, (0, 500))), 10) ∷ ((2, (1, (0, 500))), 20) ∷ [];
  label_dict = empty;
}

abbrev evaluator : MinerEvaluator
evaluator = record {
  metagraph = miner_of "a" ∷ miner_of "b" ∷ [];
  vpermit_rao_limit = 10;
  scorer = init 2;
  miner_iterator = record { miner_uids = 0 ∷ 1 ∷ []; index = 1 };
  storage = stored;
}

abbrev later : Metagraph
later = miner_of "c" ∷ miner_of "b" ∷ miner_of "d" ∷ []

on_metagraph_updated_lem_example :
    (e' : MinerEvaluator) × (on_metagraph_updated later evaluator ≡ finished e')
    × (e'.metagraph ≡ later)
    × (e'.miner_iterator.miner_uids ≡ sorted (get_miner_uids later 10))
    × IsAligned 3 e'.scorer
    × ((j : ℕ)
        → j < 2
        → (get_elem? e'.scorer.miner_credibility j ≡ (
            if uid_replaced j 0 evaluator.metagraph later
            then some starting_credibility
            else get_elem? evaluator.scorer.miner_credibility j))
          × (get_elem? e'.scorer.scores j ≡ (
              if uid_replaced j 0 evaluator.metagraph later
              then some no_amount
              else get_elem? evaluator.scorer.scores j)))
    × ((h : String)
        → lookup h e'.storage.miners ≡ (
            if hotkey_replaced h 0 evaluator.metagraph later
            then none
            else lookup h evaluator.storage.miners))
    × ((h : String) (m : Miner) (k : RowKey)
        → lookup h evaluator.storage.miners ≡ some m
        → hotkey_replaced h 0 evaluator.metagraph later ≡ true
        → k.0 ≡ m.miner_id
        → lookup k e'.storage.rows ≡ none)
    × ((k : RowKey)
        → ((h : String) (m : Miner)
            → lookup h evaluator.storage.miners ≡ some m
            → hotkey_replaced h 0 evaluator.metagraph later ≡ true
            → k.0 ≢ m.miner_id)
        → lookup k e'.storage.rows ≡ lookup k evaluator.storage.rows)
unfolding init replicate
on_metagraph_updated_lem_example =
    on_metagraph_updated_lem later evaluator
      (record {
        of_scores = refl;
        of_credibility = refl;
        of_bytes = refl;
        of_boosts = refl;
        of_s3_credibility = refl;
      })
      (omega arith) (omega arith)

replaced_first :
    (uid_replaced 0 0 evaluator.metagraph later ≡ true)
    × (uid_replaced 1 0 evaluator.metagraph later ≡ false)
unfolding uid_replaced replaced
replaced_first = (refl, refl)
