-- ===== src/Reddit/RateLimiter/Laws.antt =====
-- One attempt of the limiter, and its waiting loop.
use custom_scraper.Prelude.{
  Bool, Bool-cases, List, Option-cases, String, [], arith, false, if◌then◌else◌, inl, inr, leb,
  length, some, string_key, true, ℕ, ◌*◌, ◌+◌, ◌-◌, ◌∷◌, ◌≡◌, ◌≤◌,
}
use custom_scraper.Prelude.Dict.{insert, lookup, lookup-insert, lookup-modify, modify}
use custom_scraper.Reddit.RateLimiter.{
  Bucket, Buckets, Round, acquire, acquire_until, default_bucket, refilled, try_acquire_once,
}
use text.Mathlib.TextEquality.{eq_iff}
use mathlib.Core.Option

-- The bucket after an attempt, from the row before it.
abbrev pub row_before : ℕ → String → Buckets → Bucket
row_before now name table = Option.get_or (lookup name table) (default_bucket now)

if_lookup-insert :
    (name j : String) (b c old : Bucket) (table : Buckets)
    → b ≡ c
    → lookup j (insert name b (insert name old table))
      ≡ (if string_key.same name j then some c else lookup j table)
if_lookup-insert name j b c old table e =
    ground (arith, lookup-insert name j b (insert name old table), lookup-insert name j old table)

if_lookup-modify :
    (name j : String) (b c old : Bucket) (table : Buckets)
    → lookup name table ≡ some old
    → b ≡ c
    → lookup j (modify name (λ _. b) table)
      ≡ (if string_key.same name j then some c else lookup j table)
if_lookup-modify name j b c old table h e =
    ground (arith, eq_iff name j, lookup-modify name j (λ _. b) table)

-- An attempt gives the tokens exactly when the refilled bucket holds them, and takes them only then; the
-- clock of the bucket is set either way; every other bucket stays as it was.
pub try_acquire_once_lem :
    (now : ℕ) (name : String) (tokens : ℕ) (table : Buckets) (j : String)
    → ((try_acquire_once now name tokens table).0
        ≡ leb tokens (refilled now (row_before now name table)))
      × (lookup j (try_acquire_once now name tokens table).1 ≡ (
          if string_key.same name j
          then some (record (row_before now name table) {
            tokens =
                if leb tokens (refilled now (row_before now name table))
                then refilled now (row_before now name table) - tokens
                else refilled now (row_before now name table);
            updated_at = now;
          })
          else lookup j table))
unfolding try_acquire_once
try_acquire_once_lem now name tokens table j = elim (Option-cases (lookup name table)) [
  | inl absent ↦
      rw (absent, try_acquire_once)
        (ground arith, if_lookup-insert name j _ _ (default_bucket now) table (ground arith))
  | inr (row, present) ↦
      rw (present, try_acquire_once)
        (ground arith, if_lookup-modify name j _ _ row table present (ground arith))
]

-- Each round's clock is a tenth of a second past the one before, at least.
abbrev pub IsAdvancing : ℕ → List Round → Type 0
IsAdvancing from [] = Unit
IsAdvancing from (round ∷ rounds) =
    (from ≤ round.checked) × IsAdvancing (round.checked + 100) rounds

acquire_until_ends :
    (round : Round) (rounds : List Round) (from d : ℕ) (name : String) (tokens : ℕ)
    (table : Buckets)
    → IsAdvancing from (round ∷ rounds)
    → d ≤ from + 100 * length rounds
    → (r : Bool) × ((acquire_until (round ∷ rounds) (some d) name tokens table).0 ≡ some r)
unfolding acquire_until
acquire_until_ends round [] from d name tokens table h k =
    elim (Bool-cases (try_acquire_once round.tried name tokens table).0) [
      | inl acquired ↦ (true, ground arith)
      | inr short ↦ (false, ground arith)
    ]
acquire_until_ends round (next ∷ rounds) from d name tokens table h k =
    let (r, ends) =
      acquire_until_ends next rounds (round.checked + 100) d name tokens
        (round.others (try_acquire_once round.tried name tokens table).1) h.1 (omega arith) in
    elim (Bool-cases (try_acquire_once round.tried name tokens table).0) [
      | inl acquired ↦ (true, ground arith)
      | inr short ↦ elim (Bool-cases (leb d round.checked)) [
        | inl passed ↦ (false, ground arith)
        | inr time_left ↦ (r, ground (arith, ends))
      ]
    ]

-- With a timeout, `acquire` ends with an answer within one round for each tenth of a second of the timeout
-- and one more, whatever other tasks do to the buckets meanwhile, if the clock moves on by a tenth of a
-- second at each sleep.
pub acquire_ends :
    (now timeout : ℕ) (round : Round) (rounds : List Round) (name : String) (tokens : ℕ)
    (table : Buckets)
    → IsAdvancing now (round ∷ rounds)
    → timeout ≤ 100 * length rounds
    → (r : Bool) × ((acquire now (some timeout) (round ∷ rounds) name tokens table).0 ≡ some r)
unfolding acquire
acquire_ends now timeout round rounds name tokens table h k =
    acquire_until_ends round rounds now (now + timeout) name tokens table h (omega arith)
