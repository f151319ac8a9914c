-- ===== src/Rewards/Jobs/Laws.antt =====
-- The tables of jobs against a search of the whole list.
use custom_scraper.Prelude.{
  All, All-map, Bool, Bool-cases, Key, List, Option, Option-cases, String, [], ap, arith, false,
  if◌then◌else◌, inl, inr, is_some, ltb, nat_key, none, not, refl, select, some, suc, sym, true,
  zero, ℕ, ◌&&◌, ◌++◌, ◌==◌, ◌||◌, ◌∙◌, ◌∷◌, ◌≡◌, ◌≢◌,
}
use custom_scraper.Prelude.Dict.{Dict, insert, lookup, lookup-insert, lookup-modify, modify}
use custom_scraper.Rewards.Jobs.{
  DataSourceDesirability, Job, JobDict, JobKey, add_job, add_jobs, build_job_dict, ends_before,
  find_matching_jobs, find_primitive, job_key, matches, outside, starts_after,
}
use mathlib.Core.List.{append-nil, append_assoc}
use mathlib.Core.Option

-- A dictionary of lists, to which an element is added at its key.
module _ {ℓ κ} {K : Type ℓ} {V : Type κ} ⦃e : Key K⦄ where
  abbrev add_at : K → V → Dict K (List V) → Dict K (List V)
  add_at key x d =
      modify key (λ xs. xs ++ x ∷ []) (if is_some (lookup key d) then d else insert key [] d)

  lookup-made :
      (k key : K) (d : Dict K (List V))
      → Option.get_or (lookup k (if is_some (lookup key d) then d else insert key [] d)) []
        ≡ Option.get_or (lookup k d) []
  lookup-made k key d = ground (arith, lookup-insert key k [] d, e.same_iff key k)

  lookup-made_same :
      (k key : K) (d : Dict K (List V))
      → e.same key k ≡ true
      → lookup k (if is_some (lookup key d) then d else insert key [] d)
        ≡ some (Option.get_or (lookup k d) [])
  lookup-made_same k key d same =
      let eq : key ≡ k = (e.same_iff key k).0 same in
      elim (Option-cases (lookup key d)) [
        | inl absent ↦ rw absent (rw (lookup-insert key k [] d, same, sym eq, absent) refl)
        | inr (v, present) ↦ rw present (rw (sym eq, present) refl)
      ]

  lookup-added :
      (k key : K) (x : V) (d : Dict K (List V))
      → Option.get_or (lookup k (add_at key x d)) []
        ≡ Option.get_or (lookup k d) [] ++ (if e.same key k then x ∷ [] else [])
  lookup-added k key x d = rw (lookup-modify key k) (elim (Bool-cases (e.same key k)) [
    | inl same ↦ rw (same, lookup-made_same k key d same) refl
    | inr other ↦ rw other (lookup-made k key d ∙ sym (append-nil _))
  ])

-- The list at a key, empty when there is none.
jobs_at : JobKey → JobDict → List Job
jobs_at k d = Option.get_or (lookup k d) []

has_key : JobKey → Job → Bool
has_key k j = job_key.same (j.keyword, j.label) k

jobs_at-add_job :
    (k : JobKey) (j : Job) (d : JobDict)
    → jobs_at k (add_job j d) ≡ jobs_at k d ++ (if has_key k j then j ∷ [] else [])
unfolding jobs_at has_key add_job
jobs_at-add_job k j d = lookup-added k (j.keyword, j.label) j d

append-if :
    (b : Bool) (found : List Job) (j : Job) (rest : List Job)
    → (found ++ (if b then j ∷ [] else [])) ++ rest
      ≡ found ++ (elim b [ true ↦ j ∷ rest | false ↦ rest ])
append-if true found j rest = append_assoc found (j ∷ []) rest
append-if false found j rest = ap (λ us. us ++ rest) (append-nil found)

jobs_at-add_jobs :
    (k : JobKey) (js : List Job) (d : JobDict)
    → jobs_at k (add_jobs js d) ≡ jobs_at k d ++ select (has_key k) js
unfolding add_jobs
jobs_at-add_jobs k [] d = sym (append-nil _)
jobs_at-add_jobs k (j ∷ js) d =
    jobs_at-add_jobs k js (add_job j d)
    ∙ ap (λ found. found ++ select (has_key k) js) (jobs_at-add_job k j d)
    ∙ append-if (has_key k j) (jobs_at k d) j (select (has_key k) js)

jobs_at-build : (k : JobKey) (js : List Job) → jobs_at k (build_job_dict js) ≡ select (has_key k) js
unfolding build_job_dict jobs_at lookup
jobs_at-build k js = jobs_at-add_jobs k js []

select-select :
    (p q r : Job → Bool) (js : List Job)
    → ((j : Job) → r j ≡ (if q j then p j else false))
    → select p (select q js) ≡ select r js
select-select p q r [] h = refl
select-select p q r (j ∷ js) h = ground (arith, h j, select-select p q r js h)

same_sym {ℓ} : {K : Type ℓ} ⦃e : Key K⦄ (a b : K) → e.same a b ≡ e.same b a
same_sym ⦃e⦄ a b = ground (arith, e.same_iff a b, e.same_iff b a)

not_if {ℓ} : {A : Type ℓ} (b : Bool) (p q : A) → (if not b then q else p) ≡ (if b then p else q)
not_if true p q = refl
not_if false p q = refl

select-get_or :
    (p : Job → Bool) (found : Option (List Job))
    → (elim found [ none ↦ [] | some js ↦ select p js ]) ≡ select p (Option.get_or found [])
select-get_or p none = refl
select-get_or p (some js) = refl

-- `JobMatcher.find_matching_jobs`, which looks in its dictionary, returns the jobs of the list for
-- which `Job.matches` holds, in the order of the list.
pub find_matching_jobs_lem :
    (jobs : List Job) (data_keyword data_label : Option String) (data_timebucket : ℕ)
    → find_matching_jobs jobs data_keyword data_label data_timebucket
      ≡ select (λ j. matches j data_keyword data_label data_timebucket) jobs
unfolding find_matching_jobs matches jobs_at has_key
find_matching_jobs_lem jobs data_keyword data_label data_timebucket =
    let key : JobKey = (data_keyword, data_label) in
    select-get_or _ (lookup key (build_job_dict jobs))
    ∙ ap (select _) (jobs_at-build key jobs)
    ∙ select-select _ (has_key key) _ jobs (λ j.
      rw (same_sym (j.keyword, j.label) key) (not_if (job_key.same key (j.keyword, j.label)) _ _))

select_same :
    (p q : Job → Bool) (js : List Job) → All (λ j. p j ≡ q j) js → select p js ≡ select q js
select_same p q [] h = refl
select_same p q (j ∷ js) h = ground (arith, h.0, select_same p q js h.1)

-- A bound that is given is not 0.
abbrev pub HasTrueBounds : Job → Type 0
HasTrueBounds j = (j.start_timebucket ≢ some 0) × (j.end_timebucket ≢ some 0)

late_true :
    (bound : Option ℕ) (t : ℕ)
    → bound ≢ some 0
    → (elim bound [ none ↦ false | some s ↦ not (s == 0) && ltb t s ])
      ≡ (elim bound [ none ↦ false | some s ↦ ltb t s ])
late_true none t h = refl
late_true (some zero) t h = elim (h refl) [ ]
late_true (some (suc s)) t h = ground arith

early_true :
    (bound : Option ℕ) (t : ℕ)
    → bound ≢ some 0
    → (elim bound [ none ↦ false | some e ↦ not (e == 0) && ltb e t ])
      ≡ (elim bound [ none ↦ false | some e ↦ ltb e t ])
early_true none t h = refl
early_true (some zero) t h = elim (h refl) [ ]
early_true (some (suc e)) t h = ground arith

bounds_if :
    (b s e : Bool)
    → (if not b then false else if s then false else not e) ≡ (if b then not (s || e) else false)
bounds_if true true e = refl
bounds_if true false e = refl
bounds_if false s e = refl

matches-outside :
    (data_keyword data_label : Option String) (data_timebucket : ℕ) (j : Job)
    → HasTrueBounds j
    → matches j data_keyword data_label data_timebucket ≡ (
        if job_key.same (data_keyword, data_label) (j.keyword, j.label)
        then not (outside j data_timebucket)
        else false)
unfolding matches outside starts_after ends_before
matches-outside data_keyword data_label data_timebucket j h =
    bounds_if (job_key.same (data_keyword, data_label) (j.keyword, j.label)) _ _
    ∙ ap
        (λ o. if job_key.same (data_keyword, data_label) (j.keyword, j.label) then not o else false)
        (rw
          (
            late_true j.start_timebucket data_timebucket h.0,
            early_true j.end_timebucket data_timebucket h.1,
          )
          refl)

-- The optimised table of `PrimitiveDataSourceDesirability` finds the same jobs as `Job.matches` does in its
-- list, in the same order, provided that no job has a bound of 0: `matches` takes such a bound for none.
pub find_primitive_lem :
    (d : DataSourceDesirability) (data_keyword data_label : Option String) (data_timebucket : ℕ)
    → All HasTrueBounds d.jobs
    → find_primitive d data_keyword data_label data_timebucket
      ≡ select (λ j. matches j data_keyword data_label data_timebucket) d.jobs
unfolding find_primitive jobs_at has_key
find_primitive_lem d data_keyword data_label data_timebucket h =
    let key : JobKey = (data_keyword, data_label) in
    select-get_or _ (lookup key (build_job_dict d.jobs))
    ∙ ap (select _) (jobs_at-build key d.jobs)
    ∙ select-select _ (has_key key)
        (λ j.
          if job_key.same key (j.keyword, j.label) then not (outside j data_timebucket) else false)
        d.jobs (λ j. rw (same_sym (j.keyword, j.label) key) refl)
    ∙ select_same _ _ d.jobs (
        All-map d.jobs (λ j ok. sym (matches-outside data_keyword data_label data_timebucket j ok))
          h)
