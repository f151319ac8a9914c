-- ===== src/Reddit/JobQueue.antt =====
-- scraping/reddit/job_queue.py: the queue of jobs with weights, and the jobs in flight. Weights are
-- non-negative numbers in some unit, times are seconds.
pub mod Pick
pub mod Laws
mod Tests
use custom_scraper.Prelude.{
  Bool, List, Option, String, [], false, if◌then◌else◌, is_some, leb, length, map, max, none, some,
  string_key, suc, sum_by, true, zero, ℕ, ◌*◌, ◌++◌, ◌+◌, ◌-◌, ◌∷◌,
}
use custom_scraper.Prelude.Dict.{Dict, insert, lookup, modify, remove}
use mathlib.Core.Option

pub record Job : Type 0 where
  pub id : String
  pub weight : ℕ
  pub payload : String
  pub attempts : ℕ
  pub enqueued_at : ℕ

-- The JSON file.
pub record JobQueue : Type 0 where
  pub queue : List Job
  pub inflight : Dict String Job

-- `_ensure_file`
unfoldable pub empty : JobQueue
empty = record { queue = []; inflight = [] }

unfoldable pub enqueue : ℕ → Job → JobQueue → JobQueue
enqueue now job q = record q { queue = q.queue ++ record job { enqueued_at = now } ∷ [] }

-- The loop of `reprioritize` over the queue: the first job of that id gets the weight.
unfoldable pub reweigh : String → ℕ → List Job → Option (List Job)
reweigh job_id new_weight [] = none
reweigh job_id new_weight (j ∷ js) =
    let rest = reweigh job_id new_weight js in
    if string_key.same j.id job_id
    then some (record j { weight = new_weight } ∷ js)
    else Option.map (λ js'. j ∷ js') rest

unfoldable pub reprioritize : String → ℕ → JobQueue → Bool × JobQueue
unfolding reweigh
reprioritize job_id new_weight q = elim (reweigh job_id new_weight q.queue) [
  | some js ↦ (true, record q { queue = js })
  | none ↦
      if is_some (lookup job_id q.inflight)
      then (
        true,
        record q { inflight = modify job_id (λ j. record j { weight = new_weight }) q.inflight },
      )
      else (false, q)
]

-- The score of a job, times 60: the age counts in minutes, at least one.
unfoldable pub score : ℕ → Job → ℕ
score now j = j.weight * max 60 (now - j.enqueued_at)

-- The loop over the scores, from index `idx` and the sum `upto`.
unfoldable pub pick_from : ℕ → ℕ → ℕ → List ℕ → Option ℕ
pick_from r idx upto [] = none
pick_from r idx upto (w ∷ ws) =
    let rest = pick_from r (idx + 1) (upto + w) ws in if leb r (upto + w) then some idx else rest

-- `_weighted_pick_index`; `r` is the draw, on the scale of the scores. `none` is the -1.
unfoldable pub weighted_pick_index : ℕ → ℕ → List Job → Option ℕ
unfolding score pick_from
weighted_pick_index now r [] = none
weighted_pick_index now r (j ∷ js) =
    if leb (sum_by (score now) (j ∷ js)) 0
    then some 0
    else some (Option.get_or (pick_from r 0 0 (map (score now) (j ∷ js))) (length js))

-- `q.pop(idx)`: the job and the others.
unfoldable pub pop_at : ℕ → List Job → Option (Job × List Job)
pop_at idx [] = none
pop_at zero (j ∷ js) = some (j, js)
pop_at (suc idx) (j ∷ js) = Option.map (λ r. (r.0, j ∷ r.1)) (pop_at idx js)

-- `dequeue`. `from_dict` after `to_dict` gives the same job.
unfoldable pub dequeue : ℕ → ℕ → JobQueue → Option Job × JobQueue
unfolding weighted_pick_index pop_at
dequeue now r q =
    elim (Option.bind (weighted_pick_index now r q.queue) (λ idx. pop_at idx q.queue)) [
      | none ↦ (none, q)
      | some (job, rest) ↦
          (some job, record { queue = rest; inflight = insert job.id job q.inflight })
    ]

unfoldable pub ack : String → JobQueue → Bool × JobQueue
ack job_id q =
    if is_some (lookup job_id q.inflight)
    then (true, record q { inflight = remove job_id q.inflight })
    else (false, q)

unfoldable pub retried : ℕ → ℕ → Job → Job
retried now backoff_seconds job = record job {
  attempts = job.attempts + 1;
  enqueued_at = now + backoff_seconds;
}

unfoldable pub nack : ℕ → String → Bool → ℕ → JobQueue → Bool × JobQueue
unfolding retried
nack now job_id requeue backoff_seconds q = elim (lookup job_id q.inflight) [
  | none ↦ (false, q)
  | some job ↦ (
    true,
    record {
      queue = if requeue then q.queue ++ retried now backoff_seconds job ∷ [] else q.queue;
      inflight = remove job_id q.inflight;
    },
  )
]

unfoldable pub size : JobQueue → ℕ × ℕ
size q = (length q.queue, length q.inflight)
