-- ===== src/Reddit/Worker.antt =====
-- scraping/reddit/worker_orchestrator.py, the worker: which jobs are ready, and what one job does to the
-- pool, to the job state and to the checkpoints. `lower` stands for `str.lower`.
pub mod Laws
mod Tests
use custom_scraper.Prelude.{
  Bool, List, Option, String, [], false, if◌then◌else◌, is_some, leb, none, option_same, select,
  some, string_key, true, ℕ, ◌++◌, ◌+◌, ◌||◌, ◌∷◌,
}
use custom_scraper.Prelude.Dict.{Dict, insert, lookup}
use custom_scraper.Reddit.AccountPool.{AccountPool, cooldown, quarantine, release}
use custom_scraper.Reddit.Checkpoints.{Checkpoints, upsert}
use text.Mathlib.Text.{find?, starts_with, ◌==◌ as str_eq}
use mathlib.Core.Option

pub record Job : Type 0 where
  pub id : String
  pub label : Option String

pub record ScraperEntry : Type 0 where
  pub scraper_id : Option String
  pub jobs : Option (List Job)

-- `_filter_reddit_jobs`
unfoldable pub filter_reddit_jobs : List ScraperEntry → List Job
filter_reddit_jobs [] = []
filter_reddit_jobs (entry ∷ entries) =
    let rest = filter_reddit_jobs entries in
    if option_same entry.scraper_id (some "Reddit.custom")
    then Option.get_or entry.jobs [] ++ rest
    else rest

-- An entry of the job state; a key that is not there is `none`.
pub record JobMark : Type 0 where
  pub last_run_ts : Option ℕ
  pub next_eligible_ts : Option ℕ

abbrev pub JobState : Type 0
JobState = Dict String JobMark

-- `_job_ready`
unfoldable pub job_ready : ℕ → Job → JobState → Bool
job_ready now job state = elim (lookup job.id state) [
  | none ↦ leb 0 now
  | some st ↦ leb (Option.get_or st.next_eligible_ts 0) now
]

-- `_mark_job_cooldown`; `window` is the draw of `_job_cooldown_window`.
unfoldable pub mark_job_cooldown : ℕ → ℕ → Job → JobState → JobState
mark_job_cooldown now window job state =
    insert job.id (record { last_run_ts = some now; next_eligible_ts = some (now + window) }) state

-- `[j for j in all_jobs if _job_ready(j, job_state)]`
unfoldable pub ready_jobs : ℕ → List Job → JobState → List Job
unfolding job_ready
ready_jobs now jobs state = select (λ j. job_ready now j state) jobs

abbrev contains : String → String → Bool
contains s part = is_some (find? s part)

unfoldable pub looks_rate_limited : (String → String) → String → Bool
looks_rate_limited lower msg =
    let s = lower msg in
    contains s "too many requests" || (contains s "ratelimit" || contains s "429")

unfoldable pub looks_auth_ban : (String → String) → String → Bool
looks_auth_ban lower msg =
    let s = lower msg in
    contains s "unauthorized"
    || (contains s "forbidden"
        || (contains s "403" || (contains s "401" || contains s "invalid_grant")))

-- The handling of a job that raised; each call reads the clock itself.
unfoldable pub handle_error :
    (String → String) → String → ℕ → ℕ → String → AccountPool → AccountPool
unfolding cooldown quarantine release
handle_error lower msg cooled_at released_at account_id pool =
    if looks_rate_limited lower msg
    then release released_at account_id false
        (cooldown cooled_at account_id 120 (some "rate-limit") pool)
    else if looks_auth_ban lower msg
    then release released_at account_id false (quarantine account_id "auth" pool)
    else release released_at account_id false pool

-- `_extract_last_ids`, over the ids of the entities; `none` where decoding raises or there is no id.
unfoldable pub extract_last_ids :
    List (Option String) → Option String → Option String → Option String × Option String
extract_last_ids [] post comment = (post, comment)
extract_last_ids (none ∷ ids) post comment = extract_last_ids ids post comment
extract_last_ids (some rid ∷ ids) post comment =
    extract_last_ids ids (if starts_with rid "t3_" then some rid else post) (
      if starts_with rid "t3_"
      then comment
      else if starts_with rid "t1_"
      then some rid
      else comment)

-- What `scrape_advanced` does: it returns entities, of which only the ids matter here, or it raises, or the
-- task is cancelled while it waits for it.
pub data Outcome : Type 0 where
  scraped : List (Option String) → Outcome
  raised : String → Outcome
  cancelled : Outcome

pub record World : Type 0 where
  pub pool : AccountPool
  pub job_state : JobState
  pub checkpoints : Checkpoints

-- The clock and the draws of one round.
pub record Times : Type 0 where
  pub started : ℕ
  pub finished : ℕ
  pub released : ℕ
  pub noted : ℕ
  pub window : ℕ

-- `scrape_config.labels[0].value if scrape_config.labels else "all"`; a label is stored in lower case.
unfoldable pub last_subreddit : (String → String) → Job → String
last_subreddit lower job = elim job.label [
  | none ↦ "all"
  | some label ↦ if str_eq label "" then "all" else lower label
]

unfoldable pub note_checkpoint :
    (String → String)
    → ℕ
    → String
    → String
    → Job
    → Option String
    → Option String
    → Checkpoints
    → Checkpoints
unfolding upsert last_subreddit
note_checkpoint lower now worker_id account_id job post comment table =
    upsert now worker_id (some account_id) (some (last_subreddit lower job)) post comment none table

-- The end of a round. `CancelledError` is no `Exception`: it passes the handler, and the worker leaves its loop.
unfoldable pub finish : (String → String) → Times → String → String → Job → Outcome → World → World
unfolding mark_job_cooldown note_checkpoint release handle_error extract_last_ids
finish lower t worker_id account_id job (scraped ids) w =
    let (post, comment) = extract_last_ids ids none none in
    record {
      pool = release t.released account_id true w.pool;
      job_state = mark_job_cooldown t.finished t.window job w.job_state;
      checkpoints =
          note_checkpoint lower t.noted worker_id account_id job post comment w.checkpoints;
    }
finish lower t worker_id account_id job (raised msg) w = record {
  pool = handle_error lower msg t.finished t.released account_id w.pool;
  job_state = w.job_state;
  checkpoints = note_checkpoint lower t.noted worker_id account_id job none none w.checkpoints;
}
finish lower t worker_id account_id job cancelled w = w

-- A round of `worker_task` from the chosen job and the acquired account; `scrape` is the effect that
-- `scrape_advanced` has on the pool, from which it takes an account of its own.
unfoldable pub round :
    (String → String)
    → (AccountPool → Outcome × AccountPool)
    → Times
    → String
    → String
    → Job
    → World
    → World
unfolding finish note_checkpoint
round lower scrape t worker_id account_id job w =
    let (outcome, pool) = scrape w.pool in
    finish lower t worker_id account_id job outcome (record {
      pool = pool;
      job_state = w.job_state;
      checkpoints =
          note_checkpoint lower t.started worker_id account_id job none none w.checkpoints;
    })
