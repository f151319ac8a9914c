-- ===== src/Vali/Evaluator/Sweep.antt =====
-- The loop over the hotkeys of the old metagraph.
-- The hotkey of a uid is another one in the new metagraph.
use custom_scraper.Common.Metagraph.{Metagraph, is_miner, is_validator, validates}
use custom_scraper.Prelude.{
  ==_iff, Bool, Bool-cases, List, String, [], arith, false, get_elem?, get_elem?-update_at,
  get_elem?-update_at_other, get_elem?_lt, if◌then◌else◌, inl, inr, inside_ltb, length, nat_key,
  none, not, pair_key, refl, some, string_key, true, update_at, ℕ, ◌&&◌, ◌+◌, ◌<◌, ◌==◌, ◌||◌, ◌∷◌,
  ◌≡◌, ◌≢◌,
}
use custom_scraper.Prelude.Dict.{lookup}
use custom_scraper.Ratio.{no_amount, over}
use custom_scraper.Rewards.Scorer.{
  MinerScorer, and_then, done, reset, set_credibility, set_s3_boost, set_s3_credibility, set_score,
  starting_credibility, starting_s3_credibility,
}
use custom_scraper.Rewards.Scorer.Safety.{IsAligned}
use custom_scraper.Storage.Validator.{Miner, RowKey, ValidatorStorage}
use custom_scraper.Vali.Evaluator.{unqualified}
use mathlib.Core.Path.{subst}

unfoldable pub replaced : ℕ → String → Metagraph → Bool
replaced uid hotkey metagraph = elim (get_elem? metagraph uid) [
  | none ↦ false
  | some neuron ↦ not (string_key.same neuron.hotkey hotkey)
]

-- Every neuron of the metagraph mines or validates, so only the hotkey decides.
pub unqualified_lem :
    (uid : ℕ) (hotkey : String) (metagraph : Metagraph) (limit : ℕ)
    → uid < length metagraph
    → unqualified uid hotkey metagraph limit ≡ some (replaced uid hotkey metagraph)
unfolding unqualified is_miner is_validator replaced
unqualified_lem uid hotkey metagraph limit inside =
    let (neuron, e) = get_elem?_lt metagraph uid inside in
    ground (arith, e, Bool-cases (validates neuron limit))

-- Whether the uid `j` lost its hotkey, and whether the hotkey `h` lost a uid, from the uid `uid` on.
unfoldable pub uid_replaced : ℕ → ℕ → Metagraph → Metagraph → Bool
unfolding replaced
uid_replaced j uid [] metagraph = false
uid_replaced j uid (old ∷ olds) metagraph =
    (uid == j && replaced uid old.hotkey metagraph) || uid_replaced j (uid + 1) olds metagraph

unfoldable pub hotkey_replaced : String → ℕ → Metagraph → Metagraph → Bool
unfolding replaced
hotkey_replaced h uid [] metagraph = false
hotkey_replaced h uid (old ∷ olds) metagraph =
    (string_key.same old.hotkey h && replaced uid old.hotkey metagraph)
    || hotkey_replaced h (uid + 1) olds metagraph

pub reset_lem :
    (n uid : ℕ) (s : MinerScorer)
    → uid < n
    → IsAligned n s
    → reset uid s
      ≡ done (record s {
        scores = update_at uid no_amount s.scores;
        miner_credibility = update_at uid starting_credibility s.miner_credibility;
        s3_boosts = update_at uid (over 0 1) s.s3_boosts;
        s3_credibility = update_at uid starting_s3_credibility s.s3_credibility;
      })
unfolding reset and_then set_score set_credibility set_s3_boost set_s3_credibility
reset_lem n uid s inside h =
    rw
      (
        inside_ltb uid (length s.scores) (omega (arith, h.of_scores, inside)),
        inside_ltb uid (length s.miner_credibility) (omega (arith, h.of_credibility, inside)),
        inside_ltb uid (length s.s3_boosts) (omega (arith, h.of_boosts, inside)),
        inside_ltb uid (length s.s3_credibility) (omega (arith, h.of_s3_credibility, inside)),
      )
      refl

-- What the loop leaves: the numbers of a uid that lost its hotkey start again, and the index of a hotkey that lost
-- its uid is gone.
module _ (n uid : ℕ) (olds metagraph : Metagraph) where
  pub record IsSwept (s s' : MinerScorer) (d d' : ValidatorStorage) : Type 0 where
    pub aligned : IsAligned n s'
    pub credibilities :
        (j : ℕ)
        → j < n
        → get_elem? s'.miner_credibility j ≡ (
            if uid_replaced j uid olds metagraph
            then some starting_credibility
            else get_elem? s.miner_credibility j)
    pub scored :
        (j : ℕ)
        → j < n
        → get_elem? s'.scores j
          ≡ (if uid_replaced j uid olds metagraph then some no_amount else get_elem? s.scores j)
    pub kept_miners :
        (h : String)
        → lookup h d'.miners
          ≡ (if hotkey_replaced h uid olds metagraph then none else lookup h d.miners)
    pub deleted_rows :
        (h : String) (m : Miner) (k : RowKey)
        → lookup h d.miners ≡ some m
        → hotkey_replaced h uid olds metagraph ≡ true
        → k.0 ≡ m.miner_id
        → lookup k d'.rows ≡ none
    pub no_rows : (k : RowKey) → lookup k d.rows ≡ none → lookup k d'.rows ≡ none
    pub kept_rows :
        (k : RowKey)
        → ((h : String) (m : Miner)
            → lookup h d.miners ≡ some m
            → hotkey_replaced h uid olds metagraph ≡ true
            → k.0 ≢ m.miner_id)
        → lookup k d'.rows ≡ lookup k d.rows

get_elem?-update_at_if {ℓ} :
    {A : Type ℓ} (xs : List A) (i j : ℕ) (v : A)
    → i < length xs
    → get_elem? (update_at i v xs) j ≡ (if i == j then some v else get_elem? xs j)
get_elem?-update_at_if xs i j v inside = elim (Bool-cases (i == j)) [
  | inl e ↦ rw e (
      subst (λ k. get_elem? (update_at i v xs) k ≡ some v) ((==_iff i j).0 e)
        (get_elem?-update_at xs i v inside))
  | inr e ↦ rw e (get_elem?-update_at_other xs i j v (λ same. ground arith))
]

pub sweep_step :
    {A : Type 0} (xs ys : List A) (uid j : ℕ) (v : A) (b later : Bool)
    → b ≡ true
    → uid < length xs
    → get_elem? ys j ≡ (if later then some v else get_elem? (update_at uid v xs) j)
    → get_elem? ys j ≡ (if (uid == j && b) || later then some v else get_elem? xs j)
sweep_step xs ys uid j v b later e inside h =
    ground (arith, e, h, get_elem?-update_at_if xs uid j v inside)
