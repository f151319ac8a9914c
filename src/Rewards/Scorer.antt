-- ===== src/Rewards/Scorer.antt =====
-- rewards/miner_scorer.py: the score and the credibilities of each miner, by uid. A method that raises leaves
-- what it has already written. The floats are exact fractions here. Percentages, factors and sizes are not
-- negative, as their callers check.
pub mod Runs
pub mod Invariant
pub mod Ranges
pub mod Safety
pub mod Calls
pub mod Restore
pub mod Learning
mod Tests
use custom_scraper.Prelude.{
  Bool, List, Option, [], get_elem?, if◌then◌else◌, length, ltb, none, replicate, some, sum_by,
  update_at, ℕ, ◌&&◌, ◌*◌, ◌++◌, ◌-◌, ◌∷◌,
}
use custom_scraper.Ratio.{
  Amount, Ratio, add_ratio, at_most_one, exceeds, is_positive, mix, mul, no_amount, over, quotient,
  scale, sub,
}
use custom_scraper.Rewards.Jobs.{DataDesirabilityLookup}
use custom_scraper.Rewards.Value.{
  ScorableDataEntityBucket, Score, get_score_for_data_entity_bucket, no_score, plus,
}
use mathlib.Core.Option

pub record MinerScorer : Type 0 where
  pub scores : List Amount
  pub miner_credibility : List Ratio
  pub scorable_bytes : List Amount
  pub s3_boosts : List Ratio
  pub s3_credibility : List Ratio
  pub cred_alpha : Ratio
  pub s3_cred_alpha : Ratio

abbrev pub starting_credibility : Ratio
starting_credibility = over 0 1

-- 0.375
abbrev pub starting_s3_credibility : Ratio
starting_s3_credibility = over 3 8

-- 0.075
abbrev pub ondemand_max_cred_penalty : Ratio
ondemand_max_cred_penalty = over 3 40

-- `__init__`, with the default rates.
unfoldable pub init : ℕ → MinerScorer
init num_neurons = record {
  scores = replicate num_neurons no_amount;
  miner_credibility = replicate num_neurons starting_credibility;
  scorable_bytes = replicate num_neurons no_amount;
  s3_boosts = replicate num_neurons (over 0 1);
  s3_credibility = replicate num_neurons starting_s3_credibility;
  cred_alpha = over 3 20;
  s3_cred_alpha = over 3 10;
}

-- How a method ends, with the state that it leaves.
pub data Outcome : Type 0 where
  done raised : MinerScorer → Outcome

abbrev pub after : Outcome → MinerScorer
after (done s) = s
after (raised s) = s

unfoldable pub and_then : Outcome → (MinerScorer → Outcome) → Outcome
and_then (done s) f = f s
and_then (raised s) f = raised s

-- The value at a uid, or the IndexError.
unfoldable pub with_elem {ℓ} : {A : Type ℓ} → List A → ℕ → MinerScorer → (A → Outcome) → Outcome
with_elem xs uid s f = elim (get_elem? xs uid) [ none ↦ raised s | some a ↦ f a ]

unfoldable pub set_score : ℕ → Amount → MinerScorer → Outcome
set_score uid v s =
    if ltb uid (length s.scores)
    then done (record s { scores = update_at uid v s.scores })
    else raised s

unfoldable pub set_credibility : ℕ → Ratio → MinerScorer → Outcome
set_credibility uid v s =
    if ltb uid (length s.miner_credibility)
    then done (record s { miner_credibility = update_at uid v s.miner_credibility })
    else raised s

unfoldable pub set_scorable_bytes : ℕ → Amount → MinerScorer → Outcome
set_scorable_bytes uid v s =
    if ltb uid (length s.scorable_bytes)
    then done (record s { scorable_bytes = update_at uid v s.scorable_bytes })
    else raised s

unfoldable pub set_s3_boost : ℕ → Ratio → MinerScorer → Outcome
set_s3_boost uid v s =
    if ltb uid (length s.s3_boosts)
    then done (record s { s3_boosts = update_at uid v s.s3_boosts })
    else raised s

unfoldable pub set_s3_credibility : ℕ → Ratio → MinerScorer → Outcome
set_s3_credibility uid v s =
    if ltb uid (length s.s3_credibility)
    then done (record s { s3_credibility = update_at uid v s.s3_credibility })
    else raised s

unfoldable pub reset : ℕ → MinerScorer → Outcome
unfolding and_then set_score set_credibility set_s3_boost set_s3_credibility
reset uid s = and_then (set_score uid no_amount s) (λ s.
    and_then (set_credibility uid starting_credibility s) (λ s.
      and_then (set_s3_boost uid (over 0 1) s)
        (λ s. set_s3_credibility uid starting_s3_credibility s)))

-- New entries behind the old ones.
unfoldable pub grow : ℕ → MinerScorer → MinerScorer
grow to_add s = record s {
  scores = s.scores ++ replicate to_add no_amount;
  miner_credibility = s.miner_credibility ++ replicate to_add starting_credibility;
  scorable_bytes = s.scorable_bytes ++ replicate to_add no_amount;
  s3_boosts = s.s3_boosts ++ replicate to_add (over 0 1);
  s3_credibility = s.s3_credibility ++ replicate to_add starting_s3_credibility;
}

-- The assertion is on the number of scores.
unfoldable pub resize : ℕ → MinerScorer → Outcome
unfolding grow
resize num_neurons s =
    if ltb num_neurons (length s.scores)
    then raised s
    else done (grow (num_neurons - length s.scores) s)

-- `s3_vali_percentage / 100`
unfoldable pub hundredth : Ratio → Ratio
hundredth p = over p.num (100 * p.den)

unfoldable pub update_s3_boost_and_cred : ℕ → Ratio → Bool → MinerScorer → Outcome
unfolding and_then with_elem set_s3_boost set_s3_credibility hundredth mul mix at_most_one
update_s3_boost_and_cred uid percentage job_match_failure s =
    and_then (set_s3_boost uid (mul (hundredth percentage) (over 200000000 1)) s) (λ s.
      if job_match_failure
      then set_s3_credibility uid (over 0 1) s
      else with_elem s.s3_credibility uid s (λ old.
        set_s3_credibility uid (at_most_one (mix s.s3_cred_alpha (hundredth percentage) old)) s))

-- `new_cred / old_cred`, where `old_cred` is positive.
unfoldable pub ratio_of : Ratio → Ratio → Ratio
ratio_of new old = over (new.num * old.den) (new.den * old.num)

pub record ValidationResult : Type 0 where
  pub is_valid : Bool
  pub content_size_bytes_validated : ℕ

unfoldable pub total_bytes_validated : List ValidationResult → ℕ
total_bytes_validated results = sum_by (λ r. r.content_size_bytes_validated) results

unfoldable pub valid_bytes : List ValidationResult → ℕ
valid_bytes results = sum_by (λ r. if r.is_valid then r.content_size_bytes_validated else 0) results

-- `credibility`: the share of the bytes that are valid.
unfoldable pub round_credibility : List ValidationResult → Ratio
unfolding total_bytes_validated valid_bytes
round_credibility results =
    if ltb 0 (total_bytes_validated results)
    then over (valid_bytes results) (total_bytes_validated results)
    else over 0 1

-- `_update_credibility`; the assertion is on the list.
unfoldable pub update_credibility : ℕ → List ValidationResult → MinerScorer → Outcome
unfolding with_elem set_credibility mix round_credibility
update_credibility uid [] s = raised s
update_credibility uid (r ∷ rs) s =
    with_elem s.miner_credibility uid s
      (λ old. set_credibility uid (mix s.cred_alpha (round_credibility (r ∷ rs)) old) s)

-- The raw score of an index: the sum over its buckets, whose unit is that of `Rewards/Value`.
unfoldable pub index_score : DataDesirabilityLookup → ℕ → List ScorableDataEntityBucket → Score
unfolding plus get_score_for_data_entity_bucket
index_score model current [] = no_score
index_score model current (b ∷ bs) =
    plus (get_score_for_data_entity_bucket model b current) (index_score model current bs)

unfoldable pub raw_score : DataDesirabilityLookup → ℕ → ℕ → List ScorableDataEntityBucket → Amount
unfolding index_score
raw_score model unit current buckets =
    let score = index_score model current buckets in
    record { gained = score.gains; lost = score.losses; unit = unit }

-- `power` is `x ** 2.5` and `root` is `x ** (1 / 2.5)`.
module _ (power root : Ratio → Ratio) where
  unfoldable pub apply_ondemand_penalty : ℕ → Ratio → MinerScorer → Outcome
  unfolding and_then with_elem set_credibility set_score sub mul ratio_of scale
  apply_ondemand_penalty uid mult_factor s = with_elem s.miner_credibility uid s (λ old.
      let new = sub old (mul ondemand_max_cred_penalty mult_factor) in
      and_then (set_credibility uid new s) (λ s.
        if ltb 0 old.num
        then with_elem s.scores uid s
            (λ score. set_score uid (scale score (power (ratio_of new old))) s)
        else done s))

  -- The step that lowers the credibility where the raw score has grown.
  unfoldable pub lower_credibility : ℕ → Amount → Amount → MinerScorer → Outcome
  unfolding with_elem set_credibility is_positive exceeds quotient mul
  lower_credibility uid score previous s =
      if is_positive previous && exceeds score previous
      then with_elem s.miner_credibility uid s
          (λ cred. set_credibility uid (mul cred (root (quotient previous score))) s)
      else done s

  -- The branch of a miner with an index, from its raw score on.
  unfoldable pub score_index : ℕ → Amount → List ValidationResult → MinerScorer → Outcome
  unfolding and_then with_elem lower_credibility set_scorable_bytes update_credibility set_score mul
      add_ratio scale
  score_index uid score results s = with_elem s.scorable_bytes uid s (λ previous.
      and_then (lower_credibility uid score previous s) (λ s.
        and_then (set_scorable_bytes uid score s) (λ s. with_elem s.s3_boosts uid s (λ boost.
          with_elem s.s3_credibility uid s (λ s3_cred.
            and_then (update_credibility uid results s) (λ s.
              with_elem s.miner_credibility uid s (λ cred.
                set_score uid (scale (add_ratio score (mul boost s3_cred)) (power cred)) s)))))))

  unfoldable pub on_miner_evaluated :
      ℕ
      → DataDesirabilityLookup
      → ℕ
      → ℕ
      → Option (List ScorableDataEntityBucket)
      → List ValidationResult
      → MinerScorer
      → Outcome
  unfolding score_index set_score raw_score
  on_miner_evaluated uid model unit current none results s = set_score uid no_amount s
  on_miner_evaluated uid model unit current (some buckets) results s =
      score_index uid (raw_score model unit current buckets) results s

-- What the file of the state holds; the fields of S3 may be missing from an old one.
pub record Saved : Type 0 where
  pub saved_scores : List Amount
  pub saved_credibility : List Ratio
  pub saved_s3_boosts : Option (List Ratio)
  pub saved_s3_credibility : Option (List Ratio)
  pub saved_scorable_bytes : Option (List Amount)

unfoldable pub save_state : MinerScorer → Saved
save_state s = record {
  saved_scores = s.scores;
  saved_credibility = s.miner_credibility;
  saved_s3_boosts = some s.s3_boosts;
  saved_s3_credibility = some s.s3_credibility;
  saved_scorable_bytes = some s.scorable_bytes;
}

unfoldable pub load_state : Saved → MinerScorer → MinerScorer
load_state saved s = record s {
  scores = saved.saved_scores;
  miner_credibility = saved.saved_credibility;
  s3_boosts =
      Option.get_or saved.saved_s3_boosts (replicate (length saved.saved_scores) (over 0 1));
  s3_credibility =
      Option.get_or saved.saved_s3_credibility
        (replicate (length saved.saved_scores) starting_s3_credibility);
}
