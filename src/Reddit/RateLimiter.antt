-- ===== src/Reddit/RateLimiter.antt =====
-- scraping/reddit/rate_limiter.py: token buckets in SQLite. Times are milliseconds and tokens are counted
-- in thousandths, so a rate of tokens per second is the same number of thousandths per millisecond.
pub mod Laws
pub mod Rate
mod Tests
use custom_scraper.Prelude.{
  Bool, List, Option, String, [], false, if◌then◌else◌, leb, min, none, some, string_key, true, ℕ,
  ◌*◌, ◌++◌, ◌+◌, ◌-◌, ◌∷◌,
}
use custom_scraper.Prelude.Dict.{Dict, insert, lookup, modify}
use mathlib.Core.Option

pub record Bucket : Type 0 where
  pub capacity : ℕ
  pub tokens : ℕ
  pub refill_rate : ℕ
  pub updated_at : ℕ

abbrev pub Buckets : Type 0
Buckets = Dict String Bucket

unfoldable pub ensure_bucket : ℕ → String → ℕ → ℕ → Buckets → Buckets
ensure_bucket now name capacity refill_rate table = elim (lookup name table) [
  | some _ ↦ table
  | none ↦
      table
      ++ (
        name,
        record {
          capacity = capacity;
          tokens = capacity;
          refill_rate = refill_rate;
          updated_at = now;
        },
      )
        ∷ []
]

-- The row that a name with no bucket is given: 5 tokens, 5 a second.
abbrev pub default_bucket : ℕ → Bucket
default_bucket now = record { capacity = 5000; tokens = 5000; refill_rate = 5; updated_at = now }

-- `max(0.0, now - updated_at)` is the subtraction on ℕ.
unfoldable pub refilled : ℕ → Bucket → ℕ
refilled now b = min b.capacity (b.tokens + b.refill_rate * (now - b.updated_at))

-- The two branches of the UPDATE, on the row itself.
unfoldable pub spend : ℕ → ℕ → Bucket → Bool × Bucket
unfolding refilled
spend now tokens b =
    if leb tokens (refilled now b)
    then (true, record b { tokens = refilled now b - tokens; updated_at = now })
    else (false, record b { tokens = refilled now b; updated_at = now })

-- `_try_acquire_once`
unfoldable pub try_acquire_once : ℕ → String → ℕ → Buckets → Bool × Buckets
unfolding spend
try_acquire_once now name tokens table = elim (lookup name table) [
  | none ↦
      let (ok, b) = spend now tokens (default_bucket now) in
      (ok, insert name b (insert name (default_bucket now) table))
  | some row ↦ let (ok, b) = spend now tokens row in (ok, modify name (λ _. b) table)
]

-- A round of `acquire`: the clock at the attempt and against the deadline, and what other tasks do to the
-- table during the sleep after it.
pub record Round : Type 0 where
  pub tried : ℕ
  pub checked : ℕ
  pub others : Buckets → Buckets

-- The loop of `acquire`; `none` means that the rounds that are given ran out.
unfoldable pub acquire_until : List Round → Option ℕ → String → ℕ → Buckets → Option Bool × Buckets
unfolding try_acquire_once
acquire_until [] deadline name tokens table = (none, table)
acquire_until (round ∷ rounds) deadline name tokens table =
    let (acquired, table') = try_acquire_once round.tried name tokens table in
    let waits : Option Bool × Buckets =
      acquire_until rounds deadline name tokens (round.others table') in
    if acquired then (some true, table') else elim deadline [
      | none ↦ waits
      | some d ↦ if leb d round.checked then (some false, table') else waits
    ]

-- `acquire`
unfoldable pub acquire : ℕ → Option ℕ → List Round → String → ℕ → Buckets → Option Bool × Buckets
unfolding acquire_until
acquire now timeout rounds name tokens table =
    acquire_until rounds (Option.map (λ t. now + t) timeout) name tokens table
