-- ===== src/Reddit/Orchestrator.antt =====
-- scraping/reddit/worker_orchestrator.py, the main loop: how many workers run.
pub mod Laws
mod Tests
use custom_scraper.Prelude.{
  Bool, List, [], drop, if◌then◌else◌, length, ltb, not, select, suc, zero, ℕ, ◌*◌, ◌++◌, ◌+◌, ◌-◌,
  ◌/◌, ◌∷◌,
}
use custom_scraper.Reddit.AccountPool.{Health}

-- The registry of workers, by id in the order of their start.
pub record Orchestrator : Type 0 where
  pub workers : List ℕ
  pub next_worker_id : ℕ

unfoldable pub init : Orchestrator
init = record { workers = []; next_worker_id = 0 }

-- `max(0, int(ready * 0.75))`
unfoldable pub target_workers : Health → ℕ
target_workers health = health.ready_count * 3 / 4

-- The loop that scales up.
unfoldable pub spawn : ℕ → Orchestrator → Orchestrator
spawn zero o = o
spawn (suc n) o =
    spawn n (record {
      workers = o.workers ++ o.next_worker_id ∷ [];
      next_worker_id = o.next_worker_id + 1;
    })

-- The loop that scales down: the oldest workers are cancelled first.
unfoldable pub stop : ℕ → Orchestrator → Orchestrator
stop n o = record o { workers = drop n o.workers }

-- Tasks that have ended by themselves leave the registry.
unfoldable pub reap : (ℕ → Bool) → Orchestrator → Orchestrator
reap ended o = record o { workers = select (λ wid. not (ended wid)) o.workers }

-- One round of `orchestrate`; both scalings look at the number of workers before the first.
unfoldable pub tick : Health → (ℕ → Bool) → Orchestrator → Orchestrator
unfolding target_workers spawn stop reap
tick health ended o =
    let target = target_workers health in
    let current = length o.workers in
    let grown = if ltb current target then spawn (target - current) o else o in
    reap ended (if ltb target current then stop (current - target) grown else grown)
