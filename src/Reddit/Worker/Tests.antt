-- ===== src/Reddit/Worker/Tests.antt =====
-- Runs of the worker, with a `lower` that leaves its text alone.
use custom_scraper.Prelude.{
  List, Option, String, [], false, none, refl, some, string_key, true, ◌∷◌, ◌≡◌,
}
use custom_scraper.Prelude.Dict.{lookup}
use custom_scraper.Reddit.Account.{Account, leased, ready}
use custom_scraper.Reddit.AccountPool.{AccountPool}
use custom_scraper.Reddit.Worker.{
  Job, Outcome, Times, World, cancelled, extract_last_ids, finish, handle_error, job_ready,
  looks_auth_ban, looks_rate_limited, mark_job_cooldown, raised, round,
}
use custom_scraper.Reddit.Worker.Laws.{
  handle_error_lem, job_ready-mark_job_cooldown, reason_after, round_status,
}

abbrev same_text : String → String
same_text s = s

abbrev leased_row : Account
leased_row = record {
  credential = record { client_id = "c"; client_secret = "s"; username = "u"; password = "p" };
  status = leased;
  cooldown_until = 0;
  fail_count = 0;
  last_error = none;
  proxy_id = none;
}

abbrev pool : AccountPool
pool = record {
  cooldown_seconds = 60;
  accounts = ("a", leased_row) ∷ [];
  proxies = [];
  proxy_pool = none;
}

messages :
    (looks_rate_limited same_text "received 429 HTTP response" ≡ true)
    × (looks_auth_ban same_text "received 403 HTTP response" ≡ true)
    × (looks_auth_ban same_text "timeout" ≡ false)
unfolding looks_rate_limited looks_auth_ban
messages = (refl, refl, refl)

-- The quarantine after a ban does not last.
handle_error_lem_example :
    lookup "a" (handle_error same_text "403" 10 11 "a" pool).accounts
    ≡ some (record leased_row {
      status = ready;
      cooldown_until = 71;
      fail_count = 1;
      last_error = reason_after same_text "403" leased_row;
    })
handle_error_lem_example =
    handle_error_lem same_text "403" 10 11 "a" pool leased_row "a" (unfold lookup in refl)

banned_reason : reason_after same_text "403" leased_row ≡ some "auth"
unfolding looks_rate_limited looks_auth_ban
banned_reason = refl

abbrev job : Job
job = record { id = "j"; label = some "r/python" }

abbrev times : Times
times = record { started = 1; finished = 10; released = 11; noted = 12; window = 1200 }

abbrev world : World
world = record { pool = pool; job_state = []; checkpoints = [] }

abbrev failing : AccountPool → Outcome × AccountPool
failing p = (raised "timeout", p)

round_status_example :
    (b : Account) × (lookup "a" (round same_text failing times "0" "a" job world).pool.accounts
      ≡ some b)
    × (b.status ≡ ready)
round_status_example =
    round_status same_text failing times "0" "a" job world leased_row (unfold lookup in refl)

abbrev stopped : AccountPool → Outcome × AccountPool
stopped p = (cancelled, p)

-- A worker that is cancelled while it scrapes leaves its account leased.
lost_lease :
    (round same_text stopped times "0" "a" job world).pool.accounts ≡ ("a", leased_row) ∷ []
unfolding round finish
lost_lease = refl

job_ready-mark_job_cooldown_example : job_ready 100 job (mark_job_cooldown 10 1200 job []) ≡ false
job_ready-mark_job_cooldown_example = job_ready-mark_job_cooldown 10 1200 100 job job []

abbrev ids : List (Option String)
ids = some "t3_a" ∷ some "t1_b" ∷ none ∷ some "t3_c" ∷ []

last_ids : extract_last_ids ids none none ≡ (some "t3_c", some "t1_b")
unfolding extract_last_ids
last_ids = refl
