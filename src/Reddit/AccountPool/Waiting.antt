-- ===== src/Reddit/AccountPool/Waiting.antt =====
-- The second attempt of `acquire`, after the sleep.
use custom_scraper.Prelude.{
  All, List, String, [], arith, false, none, refl, string_key, true, ℕ, ◌<◌, ◌∷◌, ◌≡◌,
}
use custom_scraper.Prelude.Dict.{Dict, modify}
use custom_scraper.Reddit.Account.{Account, eligible, select_ready}
use custom_scraper.Reddit.AccountPool.{
  AccountPool, Call, acquire, apply_call, apply_calls, cooldown_call, ensure_proxy_pool,
  quarantine_call, release_call, select_and_mark, select_twice,
}
use custom_scraper.Reddit.ProxyPool.{ProxyPool}

-- The call is made after `now`.
abbrev pub IsAfter : ℕ → Call → Type 0
IsAfter now (release_call t _ _) = now < t
IsAfter now (cooldown_call t _ _ _) = now < t
IsAfter now (quarantine_call _ _) = Unit

-- A change of rows that makes no row eligible leaves nothing to select.
select_ready-modify :
    (now : ℕ) (k : String) (f : Account → Account) (rows : Dict String Account)
    → ((a : Account) → eligible now (f a) ≡ false)
    → select_ready now rows ≡ none
    → select_ready now (modify k f rows) ≡ none
unfolding select_ready modify
select_ready-modify now k f [] keep h = refl
select_ready-modify now k f ((j, a) ∷ rows) keep h =
    ground (arith, keep a, select_ready-modify now k f rows keep)

select_ready-apply_call :
    (now : ℕ) (c : Call) (p : AccountPool)
    → IsAfter now c
    → select_ready now p.accounts ≡ none
    → select_ready now (apply_call c p).accounts ≡ none
unfolding apply_call eligible
select_ready-apply_call now (release_call t id true) p h e =
    select_ready-modify now id _ p.accounts (λ a. ground arith) e
select_ready-apply_call now (release_call t id false) p h e =
    select_ready-modify now id _ p.accounts (λ a. ground arith) e
select_ready-apply_call now (cooldown_call t id seconds reason) p h e =
    select_ready-modify now id _ p.accounts (λ a. ground arith) e
select_ready-apply_call now (quarantine_call id reason) p h e =
    select_ready-modify now id _ p.accounts (λ a. refl) e

select_ready-apply_calls :
    (now : ℕ) (cs : List Call) (p : AccountPool)
    → All (IsAfter now) cs
    → select_ready now p.accounts ≡ none
    → select_ready now (apply_calls cs p).accounts ≡ none
unfolding apply_calls
select_ready-apply_calls now [] p h e = e
select_ready-apply_calls now (c ∷ cs) p h e =
    select_ready-apply_calls now cs (apply_call c p) h.1 (select_ready-apply_call now c p h.0 e)

select_and_mark-none :
    (now : ℕ) (p : AccountPool)
    → select_ready now p.accounts ≡ none
    → select_and_mark now p ≡ (none, p)
unfolding select_and_mark
select_and_mark-none now p h = rw (h, select_and_mark)

select_twice-none :
    (now : ℕ) (calls : List Call) (p : AccountPool)
    → All (IsAfter now) calls
    → select_ready now p.accounts ≡ none
    → (select_twice now calls p).0 ≡ none
unfolding select_twice
select_twice-none now calls p h e = ground (
  arith,
  select_and_mark-none now p e,
  select_and_mark-none now (apply_calls calls p) (select_ready-apply_calls now calls p h e),
)

accounts-ensure_proxy_pool :
    (loaded : ProxyPool) (p : AccountPool) → (ensure_proxy_pool loaded p).accounts ≡ p.accounts
unfolding ensure_proxy_pool
accounts-ensure_proxy_pool loaded p = ground arith

-- Where no account is eligible at the first attempt, `acquire` raises, whatever releases, cooldowns and
-- quarantines other tasks make during the sleep, as long as they read the clock after `acquire` did: the
-- second attempt still compares with the first `now`.
pub acquire-none :
    (loaded : ProxyPool) (now : ℕ) (calls : List Call) (acquired_at : ℕ) (p : AccountPool)
    → All (IsAfter now) calls
    → select_ready now p.accounts ≡ none
    → (acquire loaded now calls acquired_at p).0 ≡ none
unfolding acquire
acquire-none loaded now calls acquired_at p h e = ground (
  arith,
  select_twice-none now calls (ensure_proxy_pool loaded p) h
      (rw (accounts-ensure_proxy_pool loaded p) e),
)
