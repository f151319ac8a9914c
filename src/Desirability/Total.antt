-- ===== src/Desirability/Total.antt =====
-- The total with the votes, and its final format.
use custom_scraper.Desirability.{
  FinalJob, JobKey, Submission, SubmittedJob, Totals, add_defaults, add_validators, add_vote,
  add_votes, aggregate, apply_channel_label_conversion, calculate_total_weights, capped, final_jobs,
  floored, one, plus_amount, skipped, submitted_jobs, zero_stake,
}
use custom_scraper.Desirability.Laws.{
  IsNamed, add_defaults-IsNamed, insert-IsNamed, insert_id, own_id,
}
use custom_scraper.Prelude.{
  All, Bool, Bool-cases, IsDistinct, List, Option, Option-cases, String, [], ap, arith, false,
  if◌then◌else◌, inl, inr, is_some, length, ltb, map, none, not_below, option_key, pair_key, refl,
  some, string_key, sum_by, sym, true, ℕ, ◌&&◌, ◌<◌, ◌==◌, ◌∙◌, ◌∷◌, ◌≡◌, ◌≤◌, ◌⊎◌,
}
use custom_scraper.Prelude.Dict.{Dict, insert, keys-IsDistinct, lookup}
use custom_scraper.Ratio.{Amount, Ratio, exceeds, mul, over, scale}
use mathlib.Core.Path.{subst}
use mathlib.Core.Option

at_least : (minimum w : Amount) → exceeds minimum (floored minimum w) ≡ false
unfolding floored exceeds
at_least minimum w = go (exceeds minimum w) refl
  where
    go : (b : Bool) → exceeds minimum w ≡ b → exceeds minimum (if b then minimum else w) ≡ false
    go true e = not_below _ _ (omega arith)
    go false e = e

final_jobs_lem :
    (minimum : Amount) (ids : Dict JobKey (Option String)) (d : Dict JobKey Amount)
    (channel_label : String → String) (numbered : String → ℕ → String)
    → All (λ row. is_some (lookup row.0 ids) ≡ true) d
    → (jobs : List FinalJob) × (final_jobs channel_label numbered minimum ids d ≡ some jobs)
      × (map (λ j. j.final_key) jobs ≡ map (λ row. row.0) d)
      × All (λ j. exceeds minimum j.final_weight ≡ false) jobs
unfolding final_jobs Option.bind
final_jobs_lem minimum ids [] channel_label numbered h = ([], refl, refl, tt)
final_jobs_lem minimum ids ((key, weight) ∷ d) channel_label numbered (own, h) =
    let (jobs, e, keys, least) = final_jobs_lem minimum ids d channel_label numbered h in
    elim (Option-cases (lookup key ids)) [
      | inl absent ↦ elim (impossible (sym own ∙ ap is_some absent)) [ ]
      | inr (name, found) ↦ (
        record { final_id = name; final_key = key; final_weight = floored minimum weight } ∷ jobs,
        rw (found, e) refl,
        ap (λ ks. key ∷ ks) keys,
        (at_least minimum weight, least),
      )
    ]
  where
    impossible : true ≡ false → 1 ≤ 0
    impossible e = ground arith

module _ (channel_label : String → String) (numbered : String → ℕ → String) where
  add_vote-IsNamed :
      (factor : Ratio) (job : SubmittedJob) (t : Totals)
      → IsNamed t
      → IsNamed (add_vote channel_label numbered factor job t)
  unfolding add_vote
  add_vote-IsNamed factor job t h = go job.params
    where
      key : JobKey → JobKey
      key params = apply_channel_label_conversion channel_label numbered params

      value : Amount
      value = scale (Option.get_or job.weight one) factor

      weight : JobKey → Amount
      weight params = capped (elim (lookup (key params) t.aggregated_jobs) [
        | none ↦ value
        | some w ↦ plus_amount w value
      ])

      ids : JobKey → Option (Option String) → Dict JobKey (Option String)
      ids params (some _) = t.job_ids
      ids params none =
          insert (key params)
            (Option.get_or job.id (some (numbered "aggregate_" (length t.job_ids)))) t.job_ids

      inserted :
          (params : JobKey) (o : Option (Option String))
          → lookup (key params) t.job_ids ≡ o
          → IsNamed (record {
            aggregated_jobs = insert (key params) (weight params) t.aggregated_jobs;
            job_ids = ids params o;
          })
      inserted params none e =
          insert-IsNamed (key params) _ _ t (own_id (key params) _ t.job_ids)
            (λ j. insert_id (key params) j _ t.job_ids) h
      inserted params (some name) e = insert-IsNamed (key params) _ _ t (ap is_some e) (λ j k. k) h

      go :
          (params : Option JobKey)
          → IsNamed (elim params [
            | none ↦ t
            | some params ↦ if skipped channel_label numbered params then t else record {
              aggregated_jobs = insert (key params) (weight params) t.aggregated_jobs;
              job_ids = ids params (lookup (key params) t.job_ids);
            }
          ])
      go none = h
      go (some params) =
          kept (skipped channel_label numbered params)
            (inserted params (lookup (key params) t.job_ids) refl)
        where
          kept : {u : Totals} (b : Bool) → IsNamed u → IsNamed (if b then t else u)
          kept true k = h
          kept false k = k

  add_votes-IsNamed :
      (factor : Ratio) (jobs : List SubmittedJob) (t : Totals)
      → IsNamed t
      → IsNamed (add_votes channel_label numbered factor jobs t)
  unfolding add_votes
  add_votes-IsNamed factor [] t h = h
  add_votes-IsNamed factor (job ∷ jobs) t h =
      add_votes-IsNamed factor jobs (add_vote channel_label numbered factor job t)
        (add_vote-IsNamed factor job t h)

  add_validators-IsNamed :
      (scale_of : Ratio) (total : ℕ) (validators : List (ℕ × Submission)) (t : Totals)
      → IsNamed t
      → IsNamed (add_validators channel_label numbered scale_of total validators t)
  unfolding add_validators
  add_validators-IsNamed scale_of total [] t h = h
  add_validators-IsNamed scale_of total ((stake, submission) ∷ rest) t h =
      add_validators-IsNamed scale_of total rest
        (add_votes channel_label numbered (mul scale_of (over stake total))
          (submitted_jobs channel_label numbered "aggregate_" submission) t)
        (add_votes-IsNamed (mul scale_of (over stake total))
          (submitted_jobs channel_label numbered "aggregate_" submission) t h)

  -- A validator submitted something, and the stakes of all that did are 0.
  abbrev pub HasNoStake : List (ℕ × Submission) → Type 0
  HasNoStake validators = (0 < length validators) × (sum_by (λ v. v.0) validators ≡ 0)

  -- Whatever the default jobs and the submissions of the validators: when some validator submitted something and those
  -- that did have no stake at all, the division by the total stake raises; in every other case the total is made without a
  -- missing id, no job stands in it twice, and no weight is below the minimum.
  pub calculate_total_weights_lem :
      (scale_of : Ratio) (minimum : Amount) (defaults : Submission)
      (validators : List (ℕ × Submission))
      → (HasNoStake validators
          × (calculate_total_weights channel_label numbered scale_of minimum defaults validators
              ≡ zero_stake))
        ⊎ (¬ HasNoStake validators
            × ((jobs : List FinalJob) × (calculate_total_weights channel_label numbered scale_of
                    minimum defaults validators
                  ≡ aggregate jobs)
                × IsDistinct (map (λ j. j.final_key) jobs)
                × All (λ j. exceeds minimum j.final_weight ≡ false) jobs))
  unfolding calculate_total_weights
  calculate_total_weights_lem scale_of minimum defaults validators =
      let start : Totals = record { aggregated_jobs = []; job_ids = [] } in
      let first : Totals =
        add_defaults channel_label numbered
          (submitted_jobs channel_label numbered "default_" defaults) start in
      let t : Totals =
        add_validators channel_label numbered scale_of (sum_by (λ v. v.0) validators) validators
          first in
      let h : IsNamed t =
        add_validators-IsNamed scale_of (sum_by (λ v. v.0) validators) validators first (
          add_defaults-IsNamed channel_label numbered
            (submitted_jobs channel_label numbered "default_" defaults) start
            (record { keyed = tt; named = tt })) in
      let (jobs, e, keys, least) =
        final_jobs_lem minimum t.job_ids t.aggregated_jobs channel_label numbered h.named in
      let distinct = subst IsDistinct (sym keys) (keys-IsDistinct t.aggregated_jobs h.keyed) in
      elim (Bool-cases (ltb 0 (length validators) && sum_by (λ v. v.0) validators == 0)) [
        | inl nothing ↦ inl (ground (arith, nothing), rw nothing refl)
        | inr some_stake ↦
            inr
              (λ k. ground (arith, some_stake, k), (jobs, rw (some_stake, e) refl, distinct, least))
      ]
