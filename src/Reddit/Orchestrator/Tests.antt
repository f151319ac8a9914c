-- ===== src/Reddit/Orchestrator/Tests.antt =====
-- Rounds of the main loop.
use custom_scraper.Prelude.{Bool, [], arith, false, length, refl, ℕ, ◌<◌, ◌∷◌, ◌≡◌, ◌≤◌}
use custom_scraper.Reddit.AccountPool.{Health}
use custom_scraper.Reddit.Orchestrator.{init, tick}
use custom_scraper.Reddit.Orchestrator.Laws.{IsFresh, IsRising, tick-IsRising, tick_twice_lem}

abbrev eight_ready : Health
eight_ready = record { ready_count = 8; leased_count = 0; quarantine_count = 0 }

abbrev two_ready : Health
two_ready = record { ready_count = 2; leased_count = 6; quarantine_count = 0 }

abbrev no_end : ℕ → Bool
no_end wid = false

-- Six workers start; once each has leased an account, the target falls to one and five are stopped.
up_and_down : (tick two_ready no_end (tick eight_ready no_end init)).workers ≡ 5 ∷ []
unfolding tick init
up_and_down = refl

tick-IsRising_example :
    IsRising 0 (tick eight_ready no_end init).workers (tick eight_ready no_end init).next_worker_id
    × (init.next_worker_id ≤ (tick eight_ready no_end init).next_worker_id)
    × IsFresh init.workers init.next_worker_id (tick eight_ready no_end init).workers
unfolding init
tick-IsRising_example = tick-IsRising eight_ready no_end init (omega arith)

tick_twice_lem_example :
    (length (tick eight_ready no_end init).workers ≡ 6)
    × (length (tick two_ready no_end (tick eight_ready no_end init)).workers
        < length (tick eight_ready no_end init).workers)
unfolding tick init
tick_twice_lem_example =
    tick_twice_lem eight_ready two_ready no_end (λ wid. refl) (omega arith) (omega arith)
