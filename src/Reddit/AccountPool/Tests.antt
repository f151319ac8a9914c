-- ===== src/Reddit/AccountPool/Tests.antt =====
-- Runs of the account pool.
use custom_scraper.Prelude.{
  All, IsDistinct, List, String, [], arith, if◌then◌else◌, none, refl, some, string_key, true, ℕ,
  ◌∷◌, ◌≡◌, ◌≤◌,
}
use custom_scraper.Prelude.Dict.{IsKeyed, lookup}
use custom_scraper.Reddit.Account.{
  Account, AccountCredential, eligible, leased, ready, select_ready,
}
use custom_scraper.Reddit.AccountPool.{
  AccountPool, Call, acquire, cooldown_call, release_call, select_and_mark,
}
use custom_scraper.Reddit.AccountPool.Leases.{
  Held, Reach-IsExclusive, Step, here, is_busy, next, select_and_mark_lem,
}
use custom_scraper.Reddit.AccountPool.Waiting.{acquire-none}

abbrev cred : AccountCredential
cred = record { client_id = "c"; client_secret = "s"; username = "u"; password = "p" }

abbrev row : ℕ → ℕ → Account
row until fails = record {
  credential = cred;
  status = ready;
  cooldown_until = until;
  fail_count = fails;
  last_error = none;
  proxy_id = none;
}

abbrev pool : AccountPool
pool = record {
  cooldown_seconds = 60;
  accounts = ("a", row 0 2) ∷ ("b", row 0 1) ∷ ("c", row 500 0) ∷ [];
  proxies = [];
  proxy_pool = none;
}

-- The account with the fewest failures among those that do not cool down.
fewest_failures : (select_and_mark 100 pool).0 ≡ some ("b", row 0 1)
unfolding select_and_mark select_ready
fewest_failures = refl

pool-IsKeyed : IsKeyed pool.accounts
unfolding lookup
pool-IsKeyed = (refl, (refl, (refl, tt)))

abbrev one_held : Held
one_held = record { pool = (select_and_mark 100 pool).1; held = "b" ∷ [] }

Reach-IsExclusive_example :
    IsDistinct one_held.held × All (λ id. is_busy id one_held.pool.accounts ≡ true) one_held.held
Reach-IsExclusive_example =
    Reach-IsExclusive pool pool-IsKeyed
      (next here (Step.take (record { pool = pool; held = [] }) 100 "b" (row 0 1) fewest_failures))

abbrev cooling : AccountPool
cooling = record pool { accounts = ("c", row 500 0) ∷ [] }

nothing_ready : select_ready 100 cooling.accounts ≡ none
unfolding select_ready
nothing_ready = refl

abbrev meanwhile : List Call
meanwhile = release_call 101 "c" true ∷ cooldown_call 102 "c" 0 none ∷ []

acquire-none_example :
    (acquire (record { proxies = []; idx = 0; failures = [] }) 100 meanwhile 600 cooling).0 ≡ none
acquire-none_example =
    acquire-none (record { proxies = []; idx = 0; failures = [] }) 100 meanwhile 600 cooling
      (omega arith) nothing_ready

select_and_mark_lem_example :
    (lookup "b" pool.accounts ≡ some (row 0 1))
    × (eligible 100 (row 0 1) ≡ true)
    × ((j : String) (b : Account)
        → lookup j pool.accounts ≡ some b
        → eligible 100 b ≡ true
        → 1 ≤ b.fail_count)
    × ((j : String)
        → lookup j (select_and_mark 100 pool).1.accounts ≡ (
            if string_key.same "b" j
            then some (record (row 0 1) { status = leased })
            else lookup j pool.accounts))
select_and_mark_lem_example =
    select_and_mark_lem 100 pool "b" (row 0 1) pool-IsKeyed fewest_failures
