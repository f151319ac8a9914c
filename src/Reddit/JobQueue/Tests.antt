-- ===== src/Reddit/JobQueue/Tests.antt =====
-- Runs of the job queue.
use custom_scraper.Prelude.{
  List, String, [], arith, map, none, refl, some, string_key, suc, take, ℕ, ◌<◌, ◌∷◌, ◌≡◌, ◌≤◌,
}
use custom_scraper.Prelude.Dict.{insert, lookup}
use custom_scraper.Reddit.JobQueue.{
  Job, JobQueue, dequeue, reprioritize, score, weighted_pick_index,
}
use custom_scraper.Reddit.JobQueue.Laws.{reprioritize_missing}
use custom_scraper.Reddit.JobQueue.Pick.{total, weighted_pick_index_lem}
use mathlib.Core.Option

abbrev job : String → ℕ → ℕ → Job
job id weight enqueued_at = record {
  id = id;
  weight = weight;
  payload = "{}";
  attempts = 0;
  enqueued_at = enqueued_at;
}

abbrev jobs : List Job
jobs = job "a" 1 0 ∷ job "b" 3 0 ∷ []

abbrev two : JobQueue
two = record { queue = jobs; inflight = [] }

-- The scores are 120 and 360.
drawn : (weighted_pick_index 120 120 jobs ≡ some 0) × (weighted_pick_index 120 121 jobs ≡ some 1)
unfolding weighted_pick_index
drawn = (refl, refl)

abbrev b_taken : JobQueue
b_taken = record { queue = job "a" 1 0 ∷ []; inflight = ("b", job "b" 3 0) ∷ [] }

takes_b : dequeue 120 200 two ≡ (some (job "b" 3 0), b_taken)
unfolding dequeue insert Option.bind
takes_b = refl

weighted_pick_index_lem_example :
    (i : ℕ) × (weighted_pick_index 120 200 jobs ≡ some i)
    × (i < 2)
    × (total (take i (map (score 120) jobs)) < 200)
    × (200 ≤ total (take (suc i) (map (score 120) jobs)))
unfolding score
weighted_pick_index_lem_example = weighted_pick_index_lem 120 200 jobs (omega arith) (omega arith)

reprioritize_missing_example : ((reprioritize "z" 2 two).1 ≡ two) × (lookup "z" two.inflight ≡ none)
reprioritize_missing_example = reprioritize_missing "z" 2 two (unfold reprioritize lookup in refl)
