-- ===== src/Rewards/Jobs/Tests.antt =====
-- Runs of the tables of jobs.
use custom_scraper.Prelude.{
  List, Option, String, [], arith, false, none, refl, select, some, string_key, true, ℕ, ◌∷◌, ◌≡◌,
}
use custom_scraper.Prelude.Dict.{insert, lookup, modify}
use custom_scraper.Rewards.Jobs.{
  DataSourceDesirability, Job, add_job, add_jobs, build_job_dict, ends_before, find_primitive,
  get_job_by_id, index_ids, matches, outside, starts_after,
}
use custom_scraper.Rewards.Jobs.Laws.{find_primitive_lem}

abbrev job : String → Option String → Option ℕ → Job
job id label start = record {
  id = id;
  keyword = none;
  label = label;
  job_weight = record { negative = false; size = 10 };
  start_timebucket = start;
  end_timebucket = none;
}

abbrev jobs : List Job
jobs = job "a" (some "r/a") (some 5) ∷ job "b" (some "r/b") none ∷ job "c" (some "r/a") none ∷ []

abbrev desirability : DataSourceDesirability
desirability = record {
  weight = 58;
  default_scale_factor = record { negative = false; size = 3 };
  jobs = jobs;
}

find_primitive_runs :
    find_primitive desirability none (some "r/a") 4 ≡ job "c" (some "r/a") none ∷ []
unfolding find_primitive build_job_dict add_jobs add_job lookup insert modify outside
find_primitive_runs = refl

find_job : get_job_by_id "b" desirability ≡ some (job "b" (some "r/b") none)
unfolding get_job_by_id index_ids lookup insert
find_job = refl

-- With a bound of 0 the two differ: `Job.matches` takes the data, the table does not.
abbrev zero_bound : Job
zero_bound = record (job "z" none none) { end_timebucket = some 0 }

zero_bound-matches : matches zero_bound none none 3 ≡ true
unfolding matches starts_after ends_before
zero_bound-matches = refl

zero_bound-outside : outside zero_bound 3 ≡ true
unfolding outside
zero_bound-outside = refl

find_primitive_lem_example :
    find_primitive desirability none (some "r/a") 4
    ≡ select (λ j. matches j none (some "r/a") 4) jobs
find_primitive_lem_example = find_primitive_lem desirability none (some "r/a") 4 (
  (λ e. ground arith, λ e. ground arith),
  ((λ e. ground arith, λ e. ground arith), ((λ e. ground arith, λ e. ground arith), tt)),
)
