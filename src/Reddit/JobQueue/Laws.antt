-- ===== src/Reddit/JobQueue/Laws.antt =====
-- Jobs between the queue and the jobs in flight.
use custom_scraper.Prelude.{
  List, Option-cases, String, [], arith, false, if◌then◌else◌, inl, inr, is_some, length, none,
  refl, some, string_key, suc, true, zero, ℕ, ◌++◌, ◌+◌, ◌<◌, ◌∷◌, ◌≡◌,
}
use custom_scraper.Prelude.Dict.{
  IsKeyed, insert, length-remove, lookup, lookup-insert, lookup-remove, remove-insert,
}
use custom_scraper.Reddit.JobQueue.{
  Job, JobQueue, ack, dequeue, nack, pop_at, reprioritize, size, weighted_pick_index,
}
use custom_scraper.Reddit.JobQueue.Pick.{weighted_pick_index_lt}
use mathlib.Core.List.{Perm}
use text.Mathlib.TextEquality.{eq_iff}
use mathlib.Core.List.Perm
use mathlib.Core.Option

pop_at_lt :
    (i : ℕ) (js : List Job)
    → i < length js
    → (job : Job) × (rest : List Job) × (pop_at i js ≡ some (job, rest)) × Perm (job ∷ rest) js
unfolding pop_at
pop_at_lt i [] h = elim h [ ]
pop_at_lt zero (j ∷ js) h = (j, js, refl, Perm.refl (j ∷ js))
pop_at_lt (suc i) (j ∷ js) h =
    let (job, rest, popped, same_jobs) = pop_at_lt i js (omega arith) in
    (job, j ∷ rest, rw popped, Perm.trans (Perm.swap j job rest) (Perm.cons j same_jobs))

dequeue_at :
    (now r : ℕ) (q : JobQueue) (i : ℕ) (job : Job) (rest : List Job)
    → weighted_pick_index now r q.queue ≡ some i
    → pop_at i q.queue ≡ some (job, rest)
    → dequeue now r q ≡ (some job, record { queue = rest; inflight = insert job.id job q.inflight })
unfolding dequeue Option.bind
dequeue_at now r q i job rest picked popped = rw (picked, popped, dequeue)

-- Whatever the draw, a `dequeue` from a queue that is not empty takes one of its jobs out, leaves the
-- others in the queue, and puts the job in flight.
pub dequeue_lem :
    (now r : ℕ) (q : JobQueue) (j : Job) (js : List Job)
    → q.queue ≡ j ∷ js
    → (job : Job) × (rest : List Job) × (dequeue now r q
        ≡ (some job, record { queue = rest; inflight = insert job.id job q.inflight }))
      × Perm (job ∷ rest) q.queue
dequeue_lem now r q j js h =
    let (i, picked, inside) = weighted_pick_index_lt now r j js in
    let (job, rest, popped, same_jobs) = pop_at_lt i (j ∷ js) inside in
    (job, rest, dequeue_at now r q i job rest (rw h picked) (rw h popped), rw h same_jobs)

-- A job that is taken and given back for another try stands at the end of the queue with one attempt more
-- and its backoff, the others stand as they stood, and the jobs in flight are those of before.
pub nack-dequeue :
    (now r later backoff : ℕ) (q : JobQueue) (job : Job) (rest : List Job)
    → dequeue now r q ≡ (some job, record { queue = rest; inflight = insert job.id job q.inflight })
    → lookup job.id q.inflight ≡ none
    → nack later job.id true backoff (dequeue now r q).1 ≡ (
      true,
      record {
        queue =
            rest ++ record job { attempts = job.attempts + 1; enqueued_at = later + backoff } ∷ [];
        inflight = q.inflight;
      },
    )
unfolding nack
nack-dequeue now r later backoff q job rest h absent = rw h (
    ground (
      arith,
      lookup-insert job.id job.id job q.inflight,
      remove-insert job.id job q.inflight absent,
      eq_iff job.id job.id,
    ))

-- An `ack` says whether the job was in flight; if it was, the job is gone from flight, and the jobs in
-- flight are one fewer; the queue and the other jobs stay.
pub ack_lem :
    (id j : String) (q : JobQueue)
    → IsKeyed q.inflight
    → ((ack id q).0 ≡ is_some (lookup id q.inflight))
      × ((ack id q).1.queue ≡ q.queue)
      × (lookup j (ack id q).1.inflight
          ≡ (if string_key.same id j then none else lookup j q.inflight))
      × ((size (ack id q).1).1 + (if (ack id q).0 then 1 else 0) ≡ (size q).1)
unfolding ack size
ack_lem id j q k = elim (Option-cases (lookup id q.inflight)) [
  | inl absent ↦
      (rw absent, rw absent, rw absent (ground (arith, eq_iff id j)), rw absent (omega arith))
  | inr (job, present) ↦ (
    rw present,
    rw present,
    rw present (lookup-remove id j q.inflight),
    rw present (length-remove id job q.inflight k present),
  )
]

-- Only the weight of one job changes, and the answer says whether there is a job of that id.
pub reprioritize_missing :
    (id : String) (w : ℕ) (q : JobQueue)
    → (reprioritize id w q).0 ≡ false
    → ((reprioritize id w q).1 ≡ q) × (lookup id q.inflight ≡ none)
unfolding reprioritize
reprioritize_missing id w q h = ground arith
