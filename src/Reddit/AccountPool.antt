-- ===== src/Reddit/AccountPool.antt =====
-- `AccountPool` of scraping/reddit/session_pool.py: the accounts table, leases and cooldowns.
-- Times are whole ticks of one clock; a method takes the value that `time.time()` returns as an argument.
pub mod Leases
pub mod Waiting
mod Tests
use Prim.Native.String.{◌++◌ as str_append}
use custom_scraper.Prelude.{
  Bool, List, Option, String, [], if◌then◌else◌, none, some, string_key, ℕ, ◌++◌, ◌+◌, ◌∷◌,
}
use custom_scraper.Prelude.Dict.{Dict, lookup, modify, remove}
use custom_scraper.Reddit.Account.{
  Account, AccountCredential, account_row, cooled, count_status, isolated, leased, mark_leased,
  quarantined, ready, released, select_ready,
}
use custom_scraper.Reddit.ProxyPool.{ProxyConfig, ProxyPool}
use text.Mathlib.Text.{◌==◌ as str_eq}
use custom_scraper.Reddit.ProxyPool

pub record AccountPool : Type 0 where
  pub cooldown_seconds : ℕ
  pub accounts : Dict String Account
  pub proxies : Dict String ProxyConfig
  pub proxy_pool : Option ProxyPool

-- What `asyncpraw.Reddit` is called with.
pub record ClientArgs : Type 0 where
  pub credential : AccountCredential
  pub user_agent : String
  pub http : Option String
  pub https : Option String

pub record AccountLease : Type 0 where
  pub account : AccountCredential
  pub proxy : Option ProxyConfig
  pub reddit : ClientArgs
  pub account_id : String
  pub acquired_at : ℕ

-- `None` and the empty string are false.
unfoldable pub non_empty : Option String → Option String
non_empty none = none
non_empty (some s) = if str_eq s "" then none else some s

-- `RedditClientManager.build_client`: an empty URL is left out of `proxies`.
unfoldable pub build_client : AccountCredential → Option ProxyConfig → ClientArgs
unfolding non_empty
build_client account none = record {
  credential = account;
  user_agent = str_append "python: " account.username;
  http = none;
  https = none;
}
build_client account (some proxy) = record {
  credential = account;
  user_agent = str_append "python: " account.username;
  http = non_empty proxy.http;
  https = non_empty proxy.https;
}

-- `_ensure_proxy_pool`; the argument is what `from_json_file` would build, or an empty pool.
unfoldable pub ensure_proxy_pool : ProxyPool → AccountPool → AccountPool
ensure_proxy_pool loaded p = elim p.proxy_pool [
  | none ↦ record p { proxy_pool = some loaded }
  | some _ ↦ p
]

-- `INSERT OR REPLACE`: the old row goes, and the new one stands at the end of the table.
unfoldable pub add_account : String → AccountCredential → AccountPool → AccountPool
unfolding account_row
add_account account_id cred p = record p {
  accounts =
      remove account_id p.accounts
      ++ (account_id, account_row cred (lookup account_id p.accounts)) ∷ [];
}

unfoldable pub add_proxy : String → ProxyConfig → AccountPool → AccountPool
add_proxy proxy_id proxy p = record p {
  proxies = remove proxy_id p.proxies ++ (proxy_id, proxy) ∷ [];
}

-- `UPDATE accounts SET … WHERE account_id=?`
unfoldable pub update_account : String → (Account → Account) → AccountPool → AccountPool
update_account account_id f p = record p { accounts = modify account_id f p.accounts }

-- `_select_and_mark`
unfoldable pub select_and_mark : ℕ → AccountPool → Option (String × Account) × AccountPool
unfolding update_account mark_leased
select_and_mark now p = elim (select_ready now p.accounts) [
  | none ↦ (none, p)
  | some (account_id, a) ↦ (some (account_id, a), update_account account_id mark_leased p)
]

unfoldable pub release : ℕ → String → Bool → AccountPool → AccountPool
unfolding update_account released
release now account_id success p =
    update_account account_id (released p.cooldown_seconds now success) p

unfoldable pub cooldown : ℕ → String → ℕ → Option String → AccountPool → AccountPool
unfolding update_account cooled
cooldown now account_id seconds reason p =
    update_account account_id (cooled (now + seconds) reason) p

unfoldable pub quarantine : String → String → AccountPool → AccountPool
unfolding update_account isolated
quarantine account_id reason p = update_account account_id (isolated reason) p

-- What other tasks may do to the pool while `acquire` sleeps: none of them takes the lock.
pub data Call : Type 0 where
  release_call : ℕ → String → Bool → Call
  cooldown_call : ℕ → String → ℕ → Option String → Call
  quarantine_call : String → String → Call

unfoldable pub apply_call : Call → AccountPool → AccountPool
unfolding release cooldown quarantine
apply_call (release_call now account_id success) p = release now account_id success p
apply_call (cooldown_call now account_id seconds reason) p =
    cooldown now account_id seconds reason p
apply_call (quarantine_call account_id reason) p = quarantine account_id reason p

unfoldable pub apply_calls : List Call → AccountPool → AccountPool
apply_calls [] p = p
apply_calls (c ∷ cs) p = apply_calls cs (apply_call c p)

-- The two attempts of `acquire`, both with the `now` that is read before the first.
unfoldable pub select_twice : ℕ → List Call → AccountPool → Option (String × Account) × AccountPool
select_twice now calls p =
    let (first, q) = select_and_mark now p in
    elim first [ none ↦ select_and_mark now (apply_calls calls q) | some row ↦ (some row, q) ]

-- `await self._proxy_pool.acquire() if self._proxy_pool else None`
unfoldable pub next_proxy : AccountPool → Option ProxyConfig × AccountPool
next_proxy p = elim p.proxy_pool [
  | none ↦ (none, p)
  | some pool ↦
      let (proxy, pool') = ProxyPool.acquire pool in (proxy, record p { proxy_pool = some pool' })
]

unfoldable pub make_lease : ℕ → String × Account → AccountPool → AccountLease × AccountPool
unfolding next_proxy build_client
make_lease acquired_at (account_id, a) p =
    let (proxy, p') = next_proxy p in
    (
      record {
        account = a.credential;
        proxy = proxy;
        reddit = build_client a.credential proxy;
        account_id = account_id;
        acquired_at = acquired_at;
      },
      p',
    )

-- `acquire`; `none` is the RuntimeError.
unfoldable pub acquire :
    ProxyPool → ℕ → List Call → ℕ → AccountPool → Option AccountLease × AccountPool
acquire loaded now calls acquired_at p =
    let (row, q) = select_twice now calls (ensure_proxy_pool loaded p) in
    elim row [
      | none ↦ (none, q)
      | some r ↦ let (lease, q') = make_lease acquired_at r q in (some lease, q')
    ]

-- `health_report`
pub record Health : Type 0 where
  pub ready_count : ℕ
  pub leased_count : ℕ
  pub quarantine_count : ℕ

unfoldable pub health_report : AccountPool → Health
unfolding count_status
health_report p = record {
  ready_count = count_status ready p.accounts;
  leased_count = count_status leased p.accounts;
  quarantine_count = count_status quarantined p.accounts;
}
