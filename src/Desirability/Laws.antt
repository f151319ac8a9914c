-- ===== src/Desirability/Laws.antt =====
-- The jobs of the total.
-- Every job has an id, and none stands twice.
use custom_scraper.Desirability.{
  JobKey, SubmittedJob, Totals, add_default, add_defaults, apply_channel_label_conversion, one,
}
use custom_scraper.Prelude.{
  All, All-map, Bool, List, Option, String, [], arith, false, if◌then◌else◌, is_some, length, none,
  option_key, pair_key, same_refl, some, string_key, true, ℕ, ◌∷◌, ◌≡◌,
}
use custom_scraper.Prelude.Dict.{Dict, IsKeyed, insert, insert-IsKeyed, lookup, lookup-insert}
use custom_scraper.Ratio.{Amount}
use mathlib.Core.Option

pub record IsNamed (t : Totals) : Type 0 where
  pub keyed : IsKeyed t.aggregated_jobs
  pub named : All (λ row. is_some (lookup row.0 t.job_ids) ≡ true) t.aggregated_jobs

All-insert :
    (P : JobKey → Type 0) (k : JobKey) (w : Amount) (d : Dict JobKey Amount)
    → P k
    → All (λ row. P row.0) d
    → All (λ row. P row.0) (insert k w d)
unfolding insert
All-insert P k w [] p h = (p, tt)
All-insert P k w ((j, v) ∷ d) p h = go (pair_key.same j k) (All-insert P k w d p h.1)
  where
    go :
        (b : Bool)
        → All (λ row. P row.0) (insert k w d)
        → All (λ row. P row.0) (if b then (k, w) ∷ d else (j, v) ∷ insert k w d)
    go true rest = (p, h.1)
    go false rest = (h.0, rest)

-- An id more leaves the others.
pub insert_id :
    (k j : JobKey) (name : Option String) (ids : Dict JobKey (Option String))
    → is_some (lookup j ids) ≡ true
    → is_some (lookup j (insert k name ids)) ≡ true
insert_id k j name ids h = ground (arith, lookup-insert k j name ids, h)

pub own_id :
    (k : JobKey) (name : Option String) (ids : Dict JobKey (Option String))
    → is_some (lookup k (insert k name ids)) ≡ true
own_id k name ids = ground (arith, lookup-insert k k name ids, same_refl k)

pub insert-IsNamed :
    (k : JobKey) (w : Amount) (ids : Dict JobKey (Option String)) (t : Totals)
    → is_some (lookup k ids) ≡ true
    → ((j : JobKey) → is_some (lookup j t.job_ids) ≡ true → is_some (lookup j ids) ≡ true)
    → IsNamed t
    → IsNamed (record { aggregated_jobs = insert k w t.aggregated_jobs; job_ids = ids })
insert-IsNamed k w ids t own others h = record {
  keyed = insert-IsKeyed k w t.aggregated_jobs h.keyed;
  named =
      All-insert (λ j. is_some (lookup j ids) ≡ true) k w t.aggregated_jobs own
        (All-map t.aggregated_jobs (λ row. others row.0) h.named);
}

module _ (channel_label : String → String) (numbered : String → ℕ → String) where
  add_default-IsNamed :
      (job : SubmittedJob) (t : Totals)
      → IsNamed t
      → IsNamed (add_default channel_label numbered job t)
  unfolding add_default
  add_default-IsNamed job t h = go job.params
    where
      go :
          (params : Option JobKey)
          → IsNamed (elim params [
            | none ↦ t
            | some params ↦ record {
              aggregated_jobs =
                  insert
                    (apply_channel_label_conversion channel_label numbered params)
                    (Option.get_or job.weight one)
                    t.aggregated_jobs;
              job_ids =
                  insert
                    (apply_channel_label_conversion channel_label numbered params)
                    (Option.get_or job.id (some (numbered "default_" (length t.job_ids))))
                    t.job_ids;
            }
          ])
      go none = h
      go (some params) =
          let k : JobKey = apply_channel_label_conversion channel_label numbered params in
          insert-IsNamed k _ _ t (own_id k _ t.job_ids) (λ j. insert_id k j _ t.job_ids) h

  pub add_defaults-IsNamed :
      (jobs : List SubmittedJob) (t : Totals)
      → IsNamed t
      → IsNamed (add_defaults channel_label numbered jobs t)
  unfolding add_defaults
  add_defaults-IsNamed [] t h = h
  add_defaults-IsNamed (job ∷ jobs) t h =
      add_defaults-IsNamed jobs (add_default channel_label numbered job t)
        (add_default-IsNamed job t h)
