-- ===== src/Vali/Evaluator.antt =====
-- vali_utils/miner_evaluator.py: what the evaluator keeps, and `_on_metagraph_updated`. Its lock makes the update
-- one step. What it leaves when it raises is kept; the caller catches the error.
pub mod Sweep
pub mod Loop
pub mod Update
pub mod Eval
mod Tests
use custom_scraper.Common.Metagraph.{Metagraph, get_miner_uids, is_miner, is_validator}
use custom_scraper.Prelude.{
  Bool, Option, String, [], false, get_elem?, if◌then◌else◌, length, ltb, none, not, some,
  string_key, true, ℕ, ◌&&◌, ◌+◌, ◌||◌, ◌∷◌,
}
use custom_scraper.Rewards.Scorer.{MinerScorer, done, raised, reset, resize}
use custom_scraper.Storage.Validator.{ValidatorStorage, delete_miner}
use custom_scraper.Vali.MinerIterator.{MinerIterator, set_miner_uids}
use mathlib.Core.Option

pub record MinerEvaluator : Type 0 where
  pub metagraph : Metagraph
  pub vpermit_rao_limit : ℕ
  pub scorer : MinerScorer
  pub miner_iterator : MinerIterator
  pub storage : ValidatorStorage

pub data Updated : Type 0 where
  finished failed : MinerEvaluator → Updated

-- The test on a hotkey of the old metagraph; `none` is an IndexError.
unfoldable pub unqualified : ℕ → String → Metagraph → ℕ → Option Bool
unfolding is_miner is_validator
unqualified uid hotkey metagraph limit = elim (get_elem? metagraph uid) [
  | none ↦ none
  | some neuron ↦ elim (is_miner uid metagraph limit) [
    | none ↦ none
    | some mines ↦
        Option.map
          (λ validator. not (string_key.same neuron.hotkey hotkey) || (not mines && not validator))
          (is_validator uid metagraph limit)
  ]
]

-- The loop over the old hotkeys from the uid `uid` on: whether it ends, and what it leaves.
unfoldable pub sweep :
    ℕ
    → Metagraph
    → Metagraph
    → ℕ
    → MinerScorer × ValidatorStorage
    → Bool × (MinerScorer × ValidatorStorage)
unfolding unqualified
sweep uid [] metagraph limit (scorer, storage) = (true, (scorer, storage))
sweep uid (old ∷ olds) metagraph limit (scorer, storage) =
    elim (unqualified uid old.hotkey metagraph limit) [
      | none ↦ (false, (scorer, storage))
      | some false ↦ sweep (uid + 1) olds metagraph limit (scorer, storage)
      | some true ↦ elim (reset uid scorer) [
        | raised s ↦ (false, (s, storage))
        | done s ↦ sweep (uid + 1) olds metagraph limit (s, delete_miner old.hotkey storage)
      ]
    ]

-- `scorer.resize`, and the new metagraph, after the iterator is set.
unfoldable pub settle : Metagraph → MinerEvaluator → Updated
unfolding resize
settle metagraph e =
    if ltb (length e.metagraph) (length metagraph)
    then elim (resize (length metagraph) e.scorer) [
      | raised s ↦ failed (record e { scorer = s })
      | done s ↦ finished (record e { scorer = s; metagraph = metagraph })
    ]
    else finished (record e { metagraph = metagraph })

-- What follows the loop, with whether it ended and what it left.
unfoldable pub conclude :
    Metagraph → MinerEvaluator → Bool × (MinerScorer × ValidatorStorage) → Updated
unfolding settle
conclude metagraph e (false, (scorer, storage)) =
    failed (record e { scorer = scorer; storage = storage })
conclude metagraph e (true, (scorer, storage)) =
    elim (set_miner_uids (get_miner_uids metagraph e.vpermit_rao_limit) e.miner_iterator) [
      | none ↦ failed (record e { scorer = scorer; storage = storage })
      | some it ↦
          settle metagraph (record e { scorer = scorer; storage = storage; miner_iterator = it })
    ]

unfoldable pub on_metagraph_updated : Metagraph → MinerEvaluator → Updated
unfolding sweep conclude
on_metagraph_updated metagraph e =
    conclude metagraph e (sweep 0 e.metagraph metagraph e.vpermit_rao_limit (e.scorer, e.storage))
