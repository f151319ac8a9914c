-- ===== src/Reddit/Worker/Laws.antt =====
-- What a round leaves behind: the account, the job and the checkpoint.
use custom_scraper.Prelude.{
  Bool, Bool-cases, List, Option, String, [], ap, arith, false, if◌then◌else◌, inl, inr, leb, none,
  not, refl, some, string_key, true, ℕ, ◌&&◌, ◌+◌, ◌-◌, ◌/◌, ◌∙◌, ◌∷◌, ◌≡◌,
}
use custom_scraper.Prelude.Dict.{Dict, lookup, lookup-insert, lookup-modify, modify}
use custom_scraper.Reddit.Account.{Account, Status, ready}
use custom_scraper.Reddit.AccountPool.{AccountPool}
use custom_scraper.Reddit.Checkpoints.{get}
use custom_scraper.Reddit.Checkpoints.Laws.{get-upsert}
use custom_scraper.Reddit.Worker.{
  Job, JobState, Outcome, Times, World, cancelled, extract_last_ids, finish, handle_error,
  job_ready, last_subreddit, looks_auth_ban, looks_rate_limited, mark_job_cooldown, raised, round,
  scraped,
}
use text.Mathlib.Text.{starts_with}
use text.Mathlib.TextEquality.{eq_iff}

-- The reason that stands in the row after an error.
abbrev pub reason_after : (String → String) → String → Account → Option String
reason_after lower msg a =
    if looks_rate_limited lower msg
    then some "rate-limit"
    else if looks_auth_ban lower msg
    then some "auth"
    else a.last_error

lookup-modify_twice :
    (id j : String) (f g : Account → Account) (rows : Dict String Account) (a : Account)
    → lookup id rows ≡ some a
    → lookup j (modify id g (modify id f rows))
      ≡ (if string_key.same id j then some (g (f a)) else lookup j rows)
lookup-modify_twice id j f g rows a h =
    ground (arith, eq_iff id j, lookup-modify id j g (modify id f rows), lookup-modify id j f rows)

lookup-modify_once :
    (id j : String) (g : Account → Account) (rows : Dict String Account) (a : Account)
    → lookup id rows ≡ some a
    → lookup j (modify id g rows) ≡ (if string_key.same id j then some (g a) else lookup j rows)
lookup-modify_once id j g rows a h = ground (arith, eq_iff id j, lookup-modify id j g rows)

-- After any error the account is ready again, with the pool's own cooldown and one failure more: the
-- `release` that ends each branch undoes the quarantine, and puts its own cooldown in place of the 120
-- seconds. Only the reason tells the branches apart; other accounts are not touched.
pub handle_error_lem :
    (lower : String → String) (msg : String) (cooled_at released_at : ℕ) (id : String)
    (p : AccountPool) (a : Account) (j : String)
    → lookup id p.accounts ≡ some a
    → lookup j (handle_error lower msg cooled_at released_at id p).accounts ≡ (
        if string_key.same id j
        then some (record a {
          status = ready;
          cooldown_until = released_at + p.cooldown_seconds;
          fail_count = a.fail_count + 1;
          last_error = reason_after lower msg a;
        })
        else lookup j p.accounts)
unfolding handle_error
handle_error_lem lower msg cooled_at released_at id p a j h =
    elim (Bool-cases (looks_rate_limited lower msg)) [
      | inl limited ↦ rw (limited, handle_error) (lookup-modify_twice id j _ _ p.accounts a h)
      | inr other ↦ elim (Bool-cases (looks_auth_ban lower msg)) [
        | inl banned ↦
            rw (other, banned, handle_error) (lookup-modify_twice id j _ _ p.accounts a h)
        | inr plain ↦ rw (other, plain, handle_error) (lookup-modify_once id j _ p.accounts a h)
      ]
    ]

-- A job that was scraped is ready again from the end of its cooldown on, and not before; the readiness of
-- every other job is what it was.
pub job_ready-mark_job_cooldown :
    (now window t : ℕ) (job other : Job) (state : JobState)
    → job_ready t other (mark_job_cooldown now window job state)
      ≡ (if string_key.same job.id other.id then leb (now + window) t else job_ready t other state)
unfolding job_ready mark_job_cooldown
job_ready-mark_job_cooldown now window t job other state = ground (
  arith,
  lookup-insert job.id other.id
      (record { last_run_ts = some now; next_eligible_ts = some (now + window) }) state,
)

handle_error_ready :
    (lower : String → String) (msg : String) (cooled_at released_at : ℕ) (id : String)
    (p : AccountPool) (a : Account)
    → lookup id p.accounts ≡ some a
    → (b : Account) × (lookup id (handle_error lower msg cooled_at released_at id p).accounts
        ≡ some b)
      × (b.status ≡ ready)
handle_error_ready lower msg cooled_at released_at id p a h = (
  record a {
    status = ready;
    cooldown_until = released_at + p.cooldown_seconds;
    fail_count = a.fail_count + 1;
    last_error = reason_after lower msg a;
  },
  handle_error_lem lower msg cooled_at released_at id p a id h ∙ ground (arith, eq_iff id id),
  refl,
)

-- The status of the worker's account after a round.
abbrev pub status_after : Outcome → Status → Status
status_after (scraped ids) status = ready
status_after (raised msg) status = ready
status_after cancelled status = status

finish_status :
    (lower : String → String) (t : Times) (worker id : String) (job : Job) (outcome : Outcome)
    (w : World) (a : Account)
    → lookup id w.pool.accounts ≡ some a
    → (b : Account) × (lookup id (finish lower t worker id job outcome w).pool.accounts ≡ some b)
      × (b.status ≡ status_after outcome a.status)
unfolding finish
finish_status lower t worker id job (scraped ids) w a h = (
  record a {
    status = ready;
    cooldown_until = t.released + w.pool.cooldown_seconds / 4;
    fail_count = a.fail_count - 1;
  },
  lookup-modify_once id id _ w.pool.accounts a h ∙ ground (arith, eq_iff id id),
  refl,
)
finish_status lower t worker id job (raised msg) w a h =
    handle_error_ready lower msg t.finished t.released id w.pool a h
finish_status lower t worker id job cancelled w a h = (a, h, refl)

-- Whatever the scrape does to the pool, as long as it keeps the worker's row: when it returns or raises, the
-- round leaves the worker's account ready; when the worker is cancelled during it, the account keeps the
-- status that it has then, and so a lease is never given back.
pub round_status :
    (lower : String → String) (scrape : AccountPool → Outcome × AccountPool) (t : Times)
    (worker id : String) (job : Job) (w : World) (a : Account)
    → lookup id (scrape w.pool).1.accounts ≡ some a
    → (b : Account) × (lookup id (round lower scrape t worker id job w).pool.accounts ≡ some b)
      × (b.status ≡ status_after (scrape w.pool).0 a.status)
unfolding round
round_status lower scrape t worker id job w a h =
    finish_status lower t worker id job (scrape w.pool).0 _ a h

-- A job whose scrape raised gets no cooldown: the job state is the one before the round.
pub round_raised :
    (lower : String → String) (scrape : AccountPool → Outcome × AccountPool) (t : Times)
    (worker id : String) (job : Job) (w : World) (msg : String)
    → (scrape w.pool).0 ≡ raised msg
    → ((round lower scrape t worker id job w).job_state ≡ w.job_state)
      × (get worker (round lower scrape t worker id job w).checkpoints
          ≡ some (record {
            worker_id = worker;
            account_id = some id;
            last_subreddit = some (last_subreddit lower job);
            last_post_id = none;
            last_comment_id = none;
            updated_at = t.noted;
          }))
unfolding round
round_raised lower scrape t worker id job w msg h =
    rw (h, finish)
      (
        refl,
        get-upsert t.noted worker (some id) (some (last_subreddit lower job)) none none none _
              worker
            ∙ ground (arith, eq_iff worker worker),
      )

-- The last id of the list that passes the test, if one does, and else the default.
abbrev pub last_such : (String → Bool) → List (Option String) → Option String → Option String
last_such test [] found = found
last_such test (none ∷ ids) found = last_such test ids found
last_such test (some rid ∷ ids) found = last_such test ids (if test rid then some rid else found)

if_not_and {ℓ} :
    {A : Type ℓ} (b c : Bool) (x y : A)
    → (if b then y else if c then x else y) ≡ (if not b && c then x else y)
if_not_and true c x y = refl
if_not_and false c x y = refl

-- The ids that are noted are the last post and the last comment of the scrape, each found by itself.
pub extract_last_ids_lem :
    (ids : List (Option String)) (post comment : Option String)
    → extract_last_ids ids post comment ≡ (
      last_such (λ s. starts_with s "t3_") ids post,
      last_such (λ s. not (starts_with s "t3_") && starts_with s "t1_") ids comment,
    )
unfolding extract_last_ids
extract_last_ids_lem [] post comment = refl
extract_last_ids_lem (none ∷ ids) post comment = extract_last_ids_lem ids post comment
extract_last_ids_lem (some rid ∷ ids) post comment =
    let post' : Option String = if starts_with rid "t3_" then some rid else post in
    extract_last_ids_lem ids post' _
    ∙ ap
        (λ c. (
          last_such (λ s. starts_with s "t3_") ids post',
          last_such (λ s. not (starts_with s "t3_") && starts_with s "t1_") ids c,
        ))
        (if_not_and (starts_with rid "t3_") (starts_with rid "t1_") (some rid) comment)
