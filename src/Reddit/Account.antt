-- ===== src/Reddit/Account.antt =====
-- The rows of the table `accounts` of scraping/reddit/session_pool.py, and what its statements do to them.
pub mod Selection
use custom_scraper.Prelude.{
  Bool, Option, String, [], false, if◌then◌else◌, leb, none, some, string_key, true, ℕ, ◌+◌, ◌-◌,
  ◌/◌, ◌∷◌,
}
use custom_scraper.Prelude.Dict.{Dict}

pub record AccountCredential : Type 0 where
  pub client_id : String
  pub client_secret : String
  pub username : String
  pub password : String

-- The values of the column `status`.
pub data Status : Type 0 where
  ready leased quarantined : Status

-- A row of `accounts` behind its primary key.
pub record Account : Type 0 where
  pub credential : AccountCredential
  pub status : Status
  pub cooldown_until : ℕ
  pub fail_count : ℕ
  pub last_error : Option String
  pub proxy_id : Option String

-- The row that a new account is given, and the one that replaces an old account of the same id.
unfoldable pub account_row : AccountCredential → Option Account → Account
account_row cred none = record {
  credential = cred;
  status = ready;
  cooldown_until = 0;
  fail_count = 0;
  last_error = none;
  proxy_id = none;
}
account_row cred (some old) = record old { credential = cred }

-- `status='ready' AND cooldown_until <= now`
unfoldable pub eligible : ℕ → Account → Bool
eligible now a = elim a.status [ ready ↦ leb a.cooldown_until now | _ ↦ false ]

-- The better of a row and the best of the rows below it; the earlier row wins a tie.
unfoldable pub better : String × Account → Option (String × Account) → String × Account
better row none = row
better row (some best) = if leb row.1.fail_count best.1.fail_count then row else best

-- `SELECT … ORDER BY fail_count ASC LIMIT 1`
unfoldable pub select_ready : ℕ → Dict String Account → Option (String × Account)
unfolding eligible better
select_ready now [] = none
select_ready now (row ∷ rows) =
    let best = select_ready now rows in if eligible now row.1 then some (better row best) else best

unfoldable pub mark_leased : Account → Account
mark_leased a = record a { status = leased }

-- The row that `release` leaves; `MAX(fail_count-1, 0)` is the subtraction on ℕ.
unfoldable pub released : ℕ → ℕ → Bool → Account → Account
released cooldown_seconds now true a = record a {
  status = ready;
  cooldown_until = now + cooldown_seconds / 4;
  fail_count = a.fail_count - 1;
}
released cooldown_seconds now false a = record a {
  status = ready;
  cooldown_until = now + cooldown_seconds;
  fail_count = a.fail_count + 1;
}

unfoldable pub cooled : ℕ → Option String → Account → Account
cooled until reason a = record a { status = ready; cooldown_until = until; last_error = reason }

unfoldable pub isolated : String → Account → Account
isolated reason a = record a { status = quarantined; last_error = some reason }

-- `SELECT status, COUNT(*) … GROUP BY status`, at one status.
unfoldable pub status_same : Status → Status → Bool
status_same ready ready = true
status_same leased leased = true
status_same quarantined quarantined = true
status_same _ _ = false

unfoldable pub count_status : Status → Dict String Account → ℕ
unfolding status_same
count_status s [] = 0
count_status s ((_, a) ∷ rows) = (if status_same s a.status then 1 else 0) + count_status s rows
