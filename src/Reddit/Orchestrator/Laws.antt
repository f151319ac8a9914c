-- ===== src/Reddit/Orchestrator/Laws.antt =====
-- The workers and their ids after a round of `orchestrate`.
use custom_scraper.Prelude.{
  All, All-append, Bool, List, [], arith, drop, false, if◌then◌else◌, leb, length, length-append,
  ltb, member, nat_key, not, refl, select, suc, true, zero, ℕ, ◌*◌, ◌++◌, ◌+◌, ◌-◌, ◌/◌, ◌<◌, ◌==◌,
  ◌||◌, ◌∙◌, ◌∷◌, ◌≡◌, ◌≤◌,
}
use custom_scraper.Reddit.AccountPool.{Health}
use custom_scraper.Reddit.Orchestrator.{Orchestrator, init, spawn, stop, target_workers, tick}

length-spawn : (n : ℕ) (o : Orchestrator) → length (spawn n o).workers ≡ length o.workers + n
unfolding spawn
length-spawn zero o = omega arith
length-spawn (suc n) o =
    length-spawn n _ ∙ omega (arith, length-append o.workers (o.next_worker_id ∷ []))

select_all {ℓ} :
    {A : Type ℓ} (keep : A → Bool) (xs : List A) → ((x : A) → keep x ≡ true) → select keep xs ≡ xs
select_all keep [] h = refl
select_all keep (x ∷ xs) h = ground (arith, h x, select_all keep xs h)

length-select {ℓ} :
    {A : Type ℓ} (keep : A → Bool) (xs : List A) → length (select keep xs) ≤ length xs
length-select keep [] = omega arith
length-select keep (x ∷ xs) = ground (arith, length-select keep xs)

length-drop {ℓ} : {A : Type ℓ} (n : ℕ) (xs : List A) → length (drop n xs) ≡ length xs - n
length-drop zero xs = omega arith
length-drop (suc n) [] = omega arith
length-drop (suc n) (x ∷ xs) = omega (arith, length-drop n xs)

-- The two scalings together, before the ended tasks are reaped.
length-scaled :
    (target : ℕ) (o : Orchestrator)
    → length
        (if ltb target (length o.workers)
          then stop
              (length o.workers - target)
              (if ltb (length o.workers) target then spawn (target - length o.workers) o else o)
          else if ltb (length o.workers) target
          then spawn (target - length o.workers) o
          else o).workers
      ≡ target
unfolding stop
length-scaled target o = ground (
  arith,
  length-spawn (target - length o.workers) o,
  length-drop (length o.workers - target) o.workers,
)

-- A round in which no worker has ended by itself leaves exactly `int(ready * 0.75)` workers, whether it
-- had to start some, to stop some or neither.
pub length-tick :
    (health : Health) (ended : ℕ → Bool) (o : Orchestrator)
    → ((wid : ℕ) → ended wid ≡ false)
    → length (tick health ended o).workers ≡ health.ready_count * 3 / 4
unfolding tick
length-tick health ended o h =
    rw (select_all (λ wid. not (ended wid)) _ (λ wid. ground (arith, h wid)))
      (length-scaled (target_workers health) o)

-- At least two accounts are ready when the first round starts its workers, and by the second each worker has leased
-- at least one of them; no worker has ended by itself. Then the first round starts workers for three quarters of the
-- accounts, and the second, which counts only the accounts that are still ready, stops some of those workers again.
pub tick_twice_lem :
    (first next : Health) (ended : ℕ → Bool)
    → ((wid : ℕ) → ended wid ≡ false)
    → 1 < first.ready_count
    → next.ready_count + length (tick first ended init).workers ≤ first.ready_count
    → (length (tick first ended init).workers ≡ first.ready_count * 3 / 4)
      × (length (tick next ended (tick first ended init)).workers
          < length (tick first ended init).workers)
tick_twice_lem first next ended h two busy =
    let once = length-tick first ended init h in
    let twice = length-tick next ended (tick first ended init) h in
    (once, omega (arith, once, twice))

-- Ids from `lo` on and below `hi`, in order, each once.
abbrev pub IsRising : ℕ → List ℕ → ℕ → Type 0
IsRising lo [] hi = lo ≤ hi
IsRising lo (w ∷ ws) hi = (lo ≤ w) × IsRising (suc w) ws hi

IsRising-lower :
    (lo lo' : ℕ) (ws : List ℕ) (hi : ℕ) → lo' ≤ lo → IsRising lo ws hi → IsRising lo' ws hi
IsRising-lower lo lo' [] hi le h = omega arith
IsRising-lower lo lo' (w ∷ ws) hi le h = (omega arith, h.1)

IsRising-append :
    (lo : ℕ) (ws : List ℕ) (hi : ℕ) → IsRising lo ws hi → IsRising lo (ws ++ hi ∷ []) (hi + 1)
IsRising-append lo [] hi h = (h, omega arith)
IsRising-append lo (w ∷ ws) hi h = (h.0, IsRising-append (suc w) ws hi h.1)

IsRising-spawn :
    (n : ℕ) (o : Orchestrator)
    → IsRising 0 o.workers o.next_worker_id
    → IsRising 0 (spawn n o).workers (spawn n o).next_worker_id
unfolding spawn
IsRising-spawn zero o h = h
IsRising-spawn (suc n) o h = IsRising-spawn n _ (IsRising-append 0 o.workers o.next_worker_id h)

IsRising-drop : (n lo : ℕ) (ws : List ℕ) (hi : ℕ) → IsRising lo ws hi → IsRising lo (drop n ws) hi
IsRising-drop zero lo ws hi h = h
IsRising-drop (suc n) lo [] hi h = h
IsRising-drop (suc n) lo (w ∷ ws) hi h =
    IsRising-drop n lo ws hi (IsRising-lower (suc w) lo ws hi (omega arith) h.1)

IsRising-select :
    (keep : ℕ → Bool) (lo : ℕ) (ws : List ℕ) (hi : ℕ)
    → IsRising lo ws hi
    → IsRising lo (select keep ws) hi
IsRising-select keep lo [] hi h = h
IsRising-select keep lo (w ∷ ws) hi h =
    ground
      (arith, IsRising-select keep (suc w) ws hi h.1, IsRising-lower (suc w) lo (select keep ws) hi)

IsRising-if :
    (b : Bool) (o p : Orchestrator)
    → IsRising 0 o.workers o.next_worker_id
    → IsRising 0 p.workers p.next_worker_id
    → IsRising 0 (if b then o else p).workers (if b then o else p).next_worker_id
IsRising-if true o p h k = h
IsRising-if false o p h k = k

-- Every worker of `ws` is one of the old ones, or has an id from `next` on.
abbrev pub IsFresh : List ℕ → ℕ → List ℕ → Type 0
IsFresh old next ws = All (λ w. (member w old || leb next w) ≡ true) ws

or_true : (b c : Bool) → c ≡ true → (b || c) ≡ true
or_true true c h = refl
or_true false c h = h

refl-IsFresh : (next : ℕ) (ws : List ℕ) → IsFresh ws next ws
unfolding member
refl-IsFresh next ws = go ws ws (λ w h. h)
  where
    go :
        (old vs : List ℕ)
        → ((w : ℕ) → member w vs ≡ true → member w old ≡ true)
        → IsFresh old next vs
    go old [] h = tt
    go old (v ∷ vs) h =
        let own : member v old ≡ true = h v (ground arith) in
        (rw own refl, go old vs (λ w k. h w (or_true (v == w) (member w vs) k)))

IsFresh-drop :
    (n : ℕ) (old : List ℕ) (next : ℕ) (ws : List ℕ)
    → IsFresh old next ws
    → IsFresh old next (drop n ws)
IsFresh-drop zero old next ws h = h
IsFresh-drop (suc n) old next [] h = h
IsFresh-drop (suc n) old next (w ∷ ws) h = IsFresh-drop n old next ws h.1

IsFresh-select :
    (keep : ℕ → Bool) (old : List ℕ) (next : ℕ) (ws : List ℕ)
    → IsFresh old next ws
    → IsFresh old next (select keep ws)
IsFresh-select keep old next [] h = h
IsFresh-select keep old next (w ∷ ws) h = ground (arith, h.0, IsFresh-select keep old next ws h.1)

-- What a part of a round keeps: the next id does not fall, and the workers are old ones or new ids.
abbrev Keeps : Orchestrator → Orchestrator → Type 0
Keeps o p = (o.next_worker_id ≤ p.next_worker_id) × IsFresh o.workers o.next_worker_id p.workers

spawn-Keeps : (n : ℕ) (o p : Orchestrator) → Keeps o p → Keeps o (spawn n p)
unfolding spawn
spawn-Keeps zero o p h = h
spawn-Keeps (suc n) o p h = spawn-Keeps n o _ (
  omega (arith, h.0),
  All-append (λ w. (member w o.workers || leb o.next_worker_id w) ≡ true) p.workers
      (p.next_worker_id ∷ []) h.1 (ground (arith, h.0), tt),
)

if_Keeps : (b : Bool) (o p q : Orchestrator) → Keeps o p → Keeps o q → Keeps o (if b then p else q)
if_Keeps true o p q h k = h
if_Keeps false o p q h k = k

-- Through any round the ids of the workers stay in the order of their start, each once and below the next id; the
-- next id never falls, and every worker that is not an old one has an id from the old next id on. So no id is
-- given twice, not even that of a worker that has ended.
pub tick-IsRising :
    (health : Health) (ended : ℕ → Bool) (o : Orchestrator)
    → IsRising 0 o.workers o.next_worker_id
    → IsRising 0 (tick health ended o).workers (tick health ended o).next_worker_id
      × (o.next_worker_id ≤ (tick health ended o).next_worker_id)
      × IsFresh o.workers o.next_worker_id (tick health ended o).workers
unfolding tick
tick-IsRising health ended o h =
    let target = target_workers health in
    let current = length o.workers in
    let grown : Orchestrator = if ltb current target then spawn (target - current) o else o in
    let up : IsRising 0 grown.workers grown.next_worker_id =
      IsRising-if (ltb current target) _ o (IsRising-spawn (target - current) o h) h in
    let same : Keeps o o = (omega arith, refl-IsFresh o.next_worker_id o.workers) in
    let more : Keeps o grown =
      if_Keeps (ltb current target) o (spawn (target - current) o) o
        (spawn-Keeps (target - current) o o same) same in
    let scaled : Keeps o (if ltb target current then stop (current - target) grown else grown) =
      if_Keeps (ltb target current) o (stop (current - target) grown) grown
        (more.0, IsFresh-drop (current - target) o.workers o.next_worker_id grown.workers more.1)
        more in
    (
      IsRising-select (λ wid. not (ended wid)) 0 _ _
          (IsRising-if (ltb target current) (stop (current - target) grown) grown
            (IsRising-drop (current - target) 0 grown.workers grown.next_worker_id up) up),
      scaled.0,
      IsFresh-select (λ wid. not (ended wid)) o.workers o.next_worker_id _ scaled.1,
    )
