-- ===== src/Reddit/RateLimiter/Rate.antt =====
-- What a bucket of the limiter gives out over several attempts.
use custom_scraper.Prelude.{
  List, String, [], ap, arith, if◌then◌else◌, leb, refl, some, string_key, sym, ℕ, ◌*◌, ◌+◌, ◌-◌,
  ◌∙◌, ◌∷◌, ◌≡◌, ◌≤◌,
}
use custom_scraper.Prelude.Dict.{lookup}
use custom_scraper.Reddit.RateLimiter.{Bucket, Buckets, refilled, try_acquire_once}
use custom_scraper.Reddit.RateLimiter.Laws.{try_acquire_once_lem}
use mathlib.Core.Path.{subst, subst₂}
use native.Mathlib.Nat.{mul-add}
use text.Mathlib.TextEquality.{eq_iff}

-- The tokens that a run of attempts at one bucket gives out in all; an attempt is a time and a number.
unfoldable pub granted : List (ℕ × ℕ) → String → Buckets → ℕ
granted [] name table = 0
granted ((now, tokens) ∷ attempts) name table =
    let (ok, table') = try_acquire_once now name tokens table in
    (if ok then tokens else 0) + granted attempts name table'

-- The attempts are in the order of time, from `from` to `upto`.
abbrev pub IsTimed : ℕ → List (ℕ × ℕ) → ℕ → Type 0
IsTimed from [] upto = from ≤ upto
IsTimed from ((now, _) ∷ attempts) upto = (from ≤ now) × IsTimed now attempts upto

IsTimed-le :
    (from : ℕ) (attempts : List (ℕ × ℕ)) (upto : ℕ) → IsTimed from attempts upto → from ≤ upto
IsTimed-le from [] upto h = h
IsTimed-le from ((now, _) ∷ attempts) upto h = omega (arith, IsTimed-le now attempts upto h.1)

refilled_bounds :
    (now : ℕ) (b : Bucket)
    → (refilled now b ≤ b.capacity)
      × (refilled now b ≤ b.tokens + b.refill_rate * (now - b.updated_at))
unfolding refilled
refilled_bounds now b = (omega arith, omega arith)

-- One attempt at a bucket that is there: what it leaves, and that no token comes from nowhere.
attempt_step :
    (now : ℕ) (name : String) (tokens : ℕ) (table : Buckets) (b : Bucket)
    → lookup name table ≡ some b
    → (b' : Bucket) × (lookup name (try_acquire_once now name tokens table).1 ≡ some b')
      × (b'.capacity ≡ b.capacity)
      × (b'.refill_rate ≡ b.refill_rate)
      × (b'.updated_at ≡ now)
      × ((if (try_acquire_once now name tokens table).0 then tokens else 0) + b'.tokens
          ≡ refilled now b)
attempt_step now name tokens table b h =
    let (gives, leaves) = try_acquire_once_lem now name tokens table name in
    (
      record b {
        tokens = if leb tokens (refilled now b) then refilled now b - tokens else refilled now b;
        updated_at = now;
      },
      ground (arith, gives, leaves, eq_iff name name),
      refl,
      refl,
      refl,
      ground (arith, gives),
    )

split_time :
    (rate from now upto : ℕ)
    → from ≤ now
    → now ≤ upto
    → rate * (now - from) + rate * (upto - now) ≡ rate * (upto - from)
split_time rate from now upto h k =
    sym (mul-add rate (now - from) (upto - now)) ∙ ap (λ t. rate * t) (omega arith)

spent_bound :
    (got more left held full rate from now upto : ℕ)
    → got + left ≡ full
    → full ≤ held + rate * (now - from)
    → more ≤ left + rate * (upto - now)
    → from ≤ now
    → now ≤ upto
    → got + more ≤ held + rate * (upto - from)
spent_bound got more left held full rate from now upto kept limit rest h k =
    omega (arith, split_time rate from now upto h k)

-- Between `updated_at` and a later time, attempts in the order of time are given no more tokens in all
-- than the bucket held, plus the refill rate times the time between.
pub granted-le :
    (attempts : List (ℕ × ℕ)) (name : String) (table : Buckets) (b : Bucket) (upto : ℕ)
    → lookup name table ≡ some b
    → IsTimed b.updated_at attempts upto
    → granted attempts name table ≤ b.tokens + b.refill_rate * (upto - b.updated_at)
unfolding granted
granted-le [] name table b upto h k = omega arith
granted-le ((now, tokens) ∷ attempts) name table b upto h k =
    let (b', found, _, rate, clock, kept) = attempt_step now name tokens table b h in
    let table' : Buckets = (try_acquire_once now name tokens table).1 in
    let rest =
      granted-le attempts name table' b' upto found
        (subst (λ t. IsTimed t attempts upto) (sym clock) k.1) in
    spent_bound _ _ b'.tokens b.tokens (refilled now b) b.refill_rate b.updated_at now upto kept
      (refilled_bounds now b).1
      (subst₂ (λ r t. granted attempts name table' ≤ b'.tokens + r * (upto - t)) rate clock rest)
      k.0 (IsTimed-le now attempts upto k.1)
