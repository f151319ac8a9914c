-- ===== src/Rewards/Jobs.antt =====
-- rewards/data.py: the jobs of dynamic desirability and the two tables that find the jobs for a piece of
-- data. Weights are whole numbers of some small unit; a job weight may be negative, and so is a pair of a sign
-- and a size.
pub mod Laws
mod Tests
use custom_scraper.Prelude.{
  Bool, Key, List, Option, String, [], arith, false, if◌then◌else◌, is_some, ltb, nat_key, none,
  not, option_same, option_same_iff, select, some, string_key, true, ℕ, ◌&&◌, ◌++◌, ◌==◌, ◌||◌, ◌↔◌,
  ◌∷◌, ◌≡◌,
}
use custom_scraper.Prelude.Dict.{Dict, insert, lookup, modify}

pub record Weight : Type 0 where
  pub negative : Bool
  pub size : ℕ

pub record Job : Type 0 where
  pub id : String
  pub keyword : Option String
  pub label : Option String
  pub job_weight : Weight
  pub start_timebucket : Option ℕ
  pub end_timebucket : Option ℕ

-- `keyword`, `label`
abbrev pub JobKey : Type 0
JobKey = Option String × Option String

pub job_key_iff : (a b : JobKey) → ((option_same a.0 b.0 && option_same a.1 b.1) ≡ true) ↔ (a ≡ b)
job_key_iff (a, b) (c, d) = ground (arith, option_same_iff a c, option_same_iff b d)

instance abbrev pub job_key : Key JobKey
job_key = record {
  same = λ a b. option_same a.0 b.0 && option_same a.1 b.1;
  same_iff = job_key_iff;
}

-- `self.start_timebucket and data_timebucket < self.start_timebucket`: a bound of 0 counts as none.
unfoldable pub starts_after : Job → ℕ → Bool
starts_after job data_timebucket = elim job.start_timebucket [
  | none ↦ false
  | some s ↦ not (s == 0) && ltb data_timebucket s
]

unfoldable pub ends_before : Job → ℕ → Bool
ends_before job data_timebucket = elim job.end_timebucket [
  | none ↦ false
  | some e ↦ not (e == 0) && ltb e data_timebucket
]

-- `Job.matches`
unfoldable pub matches : Job → Option String → Option String → ℕ → Bool
unfolding starts_after ends_before
matches job data_keyword data_label data_timebucket =
    if not (job_key.same (data_keyword, data_label) (job.keyword, job.label))
    then false
    else if starts_after job data_timebucket
    then false
    else not (ends_before job data_timebucket)

abbrev pub JobDict : Type 0
JobDict = Dict JobKey (List Job)

-- One round of the loop of `_build_job_dict`: the list of the key is made when it is missing.
unfoldable pub add_job : Job → JobDict → JobDict
add_job job d =
    let key : JobKey = (job.keyword, job.label) in
    modify key (λ js. js ++ job ∷ []) (if is_some (lookup key d) then d else insert key [] d)

unfoldable pub add_jobs : List Job → JobDict → JobDict
unfolding add_job
add_jobs [] d = d
add_jobs (j ∷ js) d = add_jobs js (add_job j d)

unfoldable pub build_job_dict : List Job → JobDict
unfolding add_jobs
build_job_dict jobs = add_jobs jobs []

-- `JobMatcher.find_matching_jobs`, of the matcher that is built from `jobs`.
unfoldable pub find_matching_jobs : List Job → Option String → Option String → ℕ → List Job
unfolding build_job_dict starts_after ends_before
find_matching_jobs jobs data_keyword data_label data_timebucket =
    elim (lookup (data_keyword, data_label) (build_job_dict jobs)) [
      | none ↦ []
      | some found ↦
          select
            (λ job.
              if starts_after job data_timebucket
              then false
              else not (ends_before job data_timebucket))
            found
    ]

-- `PrimitiveDataSourceDesirability`; the list of jobs comes from `to_primitive`, so every key is there.
pub record DataSourceDesirability : Type 0 where
  pub weight : ℕ
  pub default_scale_factor : Weight
  pub jobs : List Job

-- Here a bound counts whenever it is not `None`.
unfoldable pub outside : Job → ℕ → Bool
outside job data_timebucket =
    (elim job.start_timebucket [ none ↦ false | some s ↦ ltb data_timebucket s ])
    || (elim job.end_timebucket [ none ↦ false | some e ↦ ltb e data_timebucket ])

-- `PrimitiveDataSourceDesirability.find_matching_jobs`
unfoldable pub find_primitive :
    DataSourceDesirability → Option String → Option String → ℕ → List Job
unfolding build_job_dict outside
find_primitive d data_keyword data_label data_timebucket =
    elim (lookup (data_keyword, data_label) (build_job_dict d.jobs)) [
      | none ↦ []
      | some found ↦ select (λ job. not (outside job data_timebucket)) found
    ]

-- `_job_id_dict`, built by the same loop, and `get_job_by_id`.
unfoldable pub index_ids : List Job → Dict String Job → Dict String Job
index_ids [] d = d
index_ids (j ∷ js) d = index_ids js (insert j.id j d)

unfoldable pub get_job_by_id : String → DataSourceDesirability → Option Job
unfolding index_ids
get_job_by_id job_id d = lookup job_id (index_ids d.jobs [])

pub data DataSource : Type 0 where
  reddit_source x_source youtube_source unknown_4 unknown_5 unknown_6 unknown_7 : DataSource

-- The number of the source, by which two of them are compared.
unfoldable pub source_id : DataSource → ℕ
source_id reddit_source = 1
source_id x_source = 2
source_id youtube_source = 3
source_id unknown_4 = 4
source_id unknown_5 = 5
source_id unknown_6 = 6
source_id unknown_7 = 7

-- `PrimitiveDataDesirabilityLookup`; its dictionary is read at the number of a source.
pub record DataDesirabilityLookup : Type 0 where
  pub distribution : Dict ℕ DataSourceDesirability
  pub max_age_in_hours : ℕ

unfoldable pub find_for_source :
    DataDesirabilityLookup → DataSource → Option String → Option String → ℕ → List Job
unfolding find_primitive source_id
find_for_source model source keyword label data_timebucket =
    elim (lookup (source_id source) model.distribution) [
      | none ↦ []
      | some d ↦ find_primitive d keyword label data_timebucket
    ]

unfoldable pub get_default_scale_factor : DataDesirabilityLookup → DataSource → Weight
unfolding source_id
get_default_scale_factor model source = elim (lookup (source_id source) model.distribution) [
  | none ↦ record { negative = false; size = 0 }
  | some d ↦ d.default_scale_factor
]

unfoldable pub get_data_source_weight : DataDesirabilityLookup → DataSource → ℕ
unfolding source_id
get_data_source_weight model source = elim (lookup (source_id source) model.distribution) [
  | none ↦ 0
  | some d ↦ d.weight
]
