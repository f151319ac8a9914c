-- ===== src/Reddit/AccountPool/Leases.antt =====
-- Who holds which account, over the steps of the tasks that share the pool.
use custom_scraper.Prelude.{
  All, All-map, All-without, Bool, IsDistinct, List, String, [], arith, false, if◌then◌else◌,
  member-false_of_All, none, not, some, string_key, sym, true, without, without-IsDistinct, ℕ, ◌∙◌,
  ◌∷◌, ◌≡◌, ◌≤◌,
}
use custom_scraper.Prelude.Dict.{
  Dict, IsKeyed, append-IsKeyed, lookup, lookup-append, lookup-modify, lookup-remove, modify,
  modify-IsKeyed, remove, remove-IsKeyed,
}
use custom_scraper.Reddit.Account.{
  Account, AccountCredential, account_row, eligible, isolated, leased, mark_leased, ready, released,
  select_ready, status_same,
}
use custom_scraper.Reddit.Account.Selection.{select_ready-eligible, select_ready_least}
use custom_scraper.Reddit.AccountPool.{
  AccountPool, add_account, quarantine, release, select_and_mark, update_account,
}
use mathlib.Core.Path.{subst}
use text.Mathlib.TextEquality.{eq_iff}

-- The pool with the ids that tasks hold a lease on.
pub record Held : Type 0 where
  pub pool : AccountPool
  pub held : List String

-- The steps of tasks that give a lease back by `release` or lose it by `quarantine`.
pub data Step : Held → Held → Type 0 where
  take :
      (s : Held) (now : ℕ) (id : String) (a : Account)
      → (select_and_mark now s.pool).0 ≡ some (id, a)
      → Step s (record { pool = (select_and_mark now s.pool).1; held = id ∷ s.held })
  give :
      (s : Held) (now : ℕ) (id : String) (success : Bool)
      → Step s (record { pool = release now id success s.pool; held = without id s.held })
  isolate :
      (s : Held) (id reason : String)
      → Step s (record { pool = quarantine id reason s.pool; held = without id s.held })
  enrol :
      (s : Held) (id : String) (cred : AccountCredential)
      → Step s (record { pool = add_account id cred s.pool; held = s.held })

pub data Reach (s : Held) : Held → Type 0 where
  here : Reach s s
  next : {t u : Held} → Reach s t → Step t u → Reach s u

-- The account has a row that is not ready.
unfoldable pub is_busy : String → Dict String Account → Bool
is_busy id rows = elim (lookup id rows) [ none ↦ false | some a ↦ not (status_same ready a.status) ]

pub record IsExclusive (s : Held) : Type 0 where
  pub keyed : IsKeyed s.pool.accounts
  pub busy : All (λ id. is_busy id s.pool.accounts ≡ true) s.held
  pub distinct : IsDistinct s.held

busy-modify_ne :
    (id j : String) (f : Account → Account) (rows : Dict String Account)
    → string_key.same j id ≡ false
    → is_busy j rows ≡ true
    → is_busy j (modify id f rows) ≡ true
unfolding is_busy
busy-modify_ne id j f rows ne h =
    ground (arith, lookup-modify id j f rows, eq_iff id j, eq_iff j id)

busy-mark_leased :
    (id j : String) (rows : Dict String Account)
    → is_busy j rows ≡ true
    → is_busy j (modify id mark_leased rows) ≡ true
unfolding is_busy mark_leased status_same
busy-mark_leased id j rows h = ground (arith, lookup-modify id j mark_leased rows)

busy-mark_leased_self :
    (id : String) (rows : Dict String Account) (a : Account)
    → lookup id rows ≡ some a
    → is_busy id (modify id mark_leased rows) ≡ true
unfolding is_busy mark_leased status_same
busy-mark_leased_self id rows a h =
    ground (arith, lookup-modify id id mark_leased rows, eq_iff id id)

not_busy-eligible :
    (now : ℕ) (id : String) (rows : Dict String Account) (a : Account)
    → lookup id rows ≡ some a
    → eligible now a ≡ true
    → is_busy id rows ≡ false
unfolding is_busy eligible status_same
not_busy-eligible now id rows a h e = ground arith

busy-append :
    (id j : String) (cred : AccountCredential) (p : AccountPool)
    → is_busy j p.accounts ≡ true
    → is_busy j (add_account id cred p).accounts ≡ true
unfolding is_busy add_account lookup status_same
busy-append id j cred p h = ground (
  arith,
  lookup-append j (remove id p.accounts) ((id, account_row cred (lookup id p.accounts)) ∷ []),
  lookup-remove id j p.accounts,
  eq_iff id j,
  eq_iff j id,
)

pub add_account-IsKeyed :
    (id : String) (cred : AccountCredential) (p : AccountPool)
    → IsKeyed p.accounts
    → IsKeyed (add_account id cred p).accounts
unfolding add_account
add_account-IsKeyed id cred p h =
    append-IsKeyed id _ (remove id p.accounts) (remove-IsKeyed id p.accounts h)
      (lookup-remove id id p.accounts ∙ ground (arith, eq_iff id id))

-- What `select_and_mark` leaves and reports, in terms of the selected row.
pub select_and_mark-some :
    (now : ℕ) (p : AccountPool) (id : String) (a : Account)
    → (select_and_mark now p).0 ≡ some (id, a)
    → (select_ready now p.accounts ≡ some (id, a))
      × ((select_and_mark now p).1.accounts ≡ modify id mark_leased p.accounts)
unfolding select_and_mark
select_and_mark-some now p id a h = ground arith

-- A change of one row, with the lease on it given up.
drop-IsExclusive :
    (s : Held) (id : String) (f : Account → Account)
    → IsExclusive s
    → IsExclusive (record { pool = update_account id f s.pool; held = without id s.held })
unfolding update_account
drop-IsExclusive s id f x = record {
  keyed = modify-IsKeyed id f s.pool.accounts x.keyed;
  busy = All-without id s.held (λ j ne h. busy-modify_ne id j f s.pool.accounts ne h) x.busy;
  distinct = without-IsDistinct id s.held x.distinct;
}

take-IsExclusive :
    (s : Held) (now : ℕ) (id : String) (a : Account)
    → (select_and_mark now s.pool).0 ≡ some (id, a)
    → IsExclusive s
    → IsExclusive (record { pool = (select_and_mark now s.pool).1; held = id ∷ s.held })
take-IsExclusive s now id a h x =
    let rows = s.pool.accounts in
    let (selected, after) = select_and_mark-some now s.pool id a h in
    let (found, fits) = select_ready-eligible now rows id a x.keyed selected in
    record {
      keyed = rw after (modify-IsKeyed id mark_leased rows x.keyed);
      busy =
          subst (λ r. All (λ j. is_busy j r ≡ true) (id ∷ s.held)) (sym after)
            (
              busy-mark_leased_self id rows a found,
              All-map s.held (λ j busy. busy-mark_leased id j rows busy) x.busy,
            );
      distinct = (
        member-false_of_All (λ j. is_busy j rows) id s.held
            (not_busy-eligible now id rows a found fits) x.busy,
        x.distinct,
      );
    }

Step-IsExclusive : {s t : Held} → Step s t → IsExclusive s → IsExclusive t
unfolding release quarantine
Step-IsExclusive (take s now id a h) x = take-IsExclusive s now id a h x
Step-IsExclusive (give s now id success) x =
    drop-IsExclusive s id (released s.pool.cooldown_seconds now success) x
Step-IsExclusive (isolate s id reason) x = drop-IsExclusive s id (isolated reason) x
Step-IsExclusive (enrol s id cred) x = record {
  keyed = add_account-IsKeyed id cred s.pool x.keyed;
  busy = All-map s.held (λ j busy. busy-append id j cred s.pool busy) x.busy;
  distinct = x.distinct;
}

IsExclusive-along : {s t : Held} → IsExclusive s → Reach s t → IsExclusive t
IsExclusive-along x here = x
IsExclusive-along x (next r st) = Step-IsExclusive st (IsExclusive-along x r)

-- From a pool with no row twice and no lease out, whatever tasks take, give back, lose to quarantine or
-- enrol: no account id is held twice, and every account that is held has a row that is not ready.
pub Reach-IsExclusive :
    (p : AccountPool) {t : Held}
    → IsKeyed p.accounts
    → Reach (record { pool = p; held = [] }) t
    → IsDistinct t.held × All (λ id. is_busy id t.pool.accounts ≡ true) t.held
Reach-IsExclusive p k r =
    let x = IsExclusive-along (record { keyed = k; busy = tt; distinct = tt }) r in
    (x.distinct, x.busy)

-- In a table with no row twice, the account that is leased was eligible, has failed no more often than
-- any other eligible one, and stands as leased afterwards; every other row, eligible or not, stays as it was.
pub select_and_mark_lem :
    (now : ℕ) (p : AccountPool) (id : String) (a : Account)
    → IsKeyed p.accounts
    → (select_and_mark now p).0 ≡ some (id, a)
    → (lookup id p.accounts ≡ some a)
      × (eligible now a ≡ true)
      × ((j : String) (b : Account)
          → lookup j p.accounts ≡ some b
          → eligible now b ≡ true
          → a.fail_count ≤ b.fail_count)
      × ((j : String)
          → lookup j (select_and_mark now p).1.accounts ≡ (
              if string_key.same id j
              then some (record a { status = leased })
              else lookup j p.accounts))
unfolding mark_leased
select_and_mark_lem now p id a k h =
    let (selected, after) = select_and_mark-some now p id a h in
    let (row, ready_row) = select_ready-eligible now p.accounts id a k selected in
    (
      row,
      ready_row,
      λ j b found fits. select_ready_least now p.accounts id a j b selected found fits,
      λ j. rw after (
          lookup-modify id j mark_leased p.accounts
          ∙ ground (arith, row, string_key.same_iff id j)),
    )
