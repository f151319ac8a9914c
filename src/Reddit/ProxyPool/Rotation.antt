-- ===== src/Reddit/ProxyPool/Rotation.antt =====
-- The turn of the proxies, and their failure counts.
use custom_scraper.Prelude.{
  ==_iff, Option-cases, ap, arith, get_elem?, get_elem?_lt, if◌then◌else◌, inl, inr, length,
  nat_key, none, refl, some, suc, zero, ℕ, ◌%◌, ◌+◌, ◌<◌, ◌==◌, ◌∙◌, ◌≡◌,
}
use custom_scraper.Prelude.Dict.{insert, lookup-insert}
use custom_scraper.Reddit.ProxyPool.{
  ProxyConfig, ProxyPool, acquire, failures_at, index_of, report_failure, report_success,
}
use native.Mathlib.Nat.{add-zero, mod-add-mod, mod-eq_of_lt, mod-lt}

-- The pool after `n` calls of `acquire`.
unfoldable pub after : ℕ → ProxyPool → ProxyPool
after zero p = p
after (suc n) p = after n (acquire p).1

-- The index stays inside a list that is not empty.
abbrev pub IsRotating : ProxyPool → Type 0
IsRotating p = p.idx < length p.proxies

acquire_step :
    (p : ProxyPool)
    → IsRotating p
    → ((acquire p).0 ≡ get_elem? p.proxies p.idx)
      × ((acquire p).1.proxies ≡ p.proxies)
      × ((acquire p).1.idx ≡ (p.idx + 1) % length p.proxies)
unfolding acquire
acquire_step p h = ground arith

acquire-IsRotating : (p : ProxyPool) → IsRotating p → IsRotating (acquire p).1
acquire-IsRotating p h =
    let (given, same, turn) = acquire_step p h in rw (same, turn) (mod-lt (p.idx + 1) (omega arith))

-- A pool in rotation whose next proxy is number `idx` hands out, at the call after `n` others, the proxy
-- number `idx + n`, counted round the list; it always hands one out.
pub acquire-after :
    (n : ℕ) (p : ProxyPool)
    → IsRotating p
    → ((acquire (after n p)).0 ≡ get_elem? p.proxies ((p.idx + n) % length p.proxies))
      × ((x : ProxyConfig) × ((acquire (after n p)).0 ≡ some x))
unfolding after
acquire-after zero p h =
    let (given, same, turn) = acquire_step p h in
    let (x, found) = get_elem?_lt p.proxies p.idx h in
    (rw (add-zero, mod-eq_of_lt h) given, (x, given ∙ found))
acquire-after (suc n) p h =
    let (given, same, turn) = acquire_step p h in
    let (ih, some_proxy) = acquire-after n (acquire p).1 (acquire-IsRotating p h) in
    let shift : ((p.idx + 1) % length p.proxies + n) % length p.proxies
        ≡ (p.idx + suc n) % length p.proxies =
      mod-add-mod (p.idx + 1) (length p.proxies) n ∙ ap (λ t. t % length p.proxies) (omega arith) in
    (cc, some_proxy)

report_success-none :
    (p : ProxyPool) (x : ProxyConfig)
    → index_of x p.proxies ≡ none
    → report_success (report_failure p x) x ≡ p
unfolding report_failure report_success
report_success-none p x h = rw (h, report_failure) (rw (h, report_success))

failures_at-insert :
    (p : ProxyPool) (i j v : ℕ)
    → failures_at (record p { failures = insert i v p.failures }) j
      ≡ (if i == j then v else failures_at p j)
unfolding failures_at
failures_at-insert p i j v = rw lookup-insert (ground arith)

module _ (p : ProxyPool) (x : ProxyConfig) (i : ℕ) (found : index_of x p.proxies ≡ some i) where
  report_failure_found :
      report_failure p x ≡ record p { failures = insert i (failures_at p i + 1) p.failures }
  unfolding report_failure
  report_failure_found = rw (found, report_failure)

  report_success_found :
      (n : ℕ)
      → failures_at p i ≡ suc n
      → report_success p x ≡ record p { failures = insert i n p.failures }
  unfolding report_success
  report_success_found n h = ground arith

-- A success after a failure of the same proxy gives every proxy the count that it had before, and neither
-- report touches the list or the turn.
pub report_success-report_failure :
    (p : ProxyPool) (x : ProxyConfig) (j : ℕ)
    → (failures_at (report_success (report_failure p x) x) j ≡ failures_at p j)
      × ((report_success (report_failure p x) x).proxies ≡ p.proxies)
      × ((report_success (report_failure p x) x).idx ≡ p.idx)
report_success-report_failure p x j = elim (Option-cases (index_of x p.proxies)) [
  | inl missing ↦ rw (report_success-none p x missing) (refl, refl, refl)
  | inr (i, found) ↦
      let q : ProxyPool = record p { failures = insert i (failures_at p i + 1) p.failures } in
      let one_more : failures_at q i ≡ suc (failures_at p i) =
        failures_at-insert p i i (failures_at p i + 1) ∙ ground (arith, ==_iff i i) in
      rw (report_failure_found p x i found) (
        rw (report_success_found q x i found (failures_at p i) one_more) (
          failures_at-insert q i j (failures_at p i)
              ∙ ground (arith, ==_iff i j, failures_at-insert p i j (failures_at p i + 1)),
          refl,
          refl,
        ))
]
