-- ===== src/Reddit/ProxyPool.antt =====
-- `ProxyPool` of scraping/reddit/session_pool.py: the proxies in turn, with a count of failures.
pub mod Rotation
mod Tests
use custom_scraper.Prelude.{
  Bool, List, Option, String, [], get_elem?, if◌then◌else◌, length, ltb, nat_key, none, option_same,
  some, string_key, ℕ, ◌%◌, ◌&&◌, ◌+◌, ◌-◌, ◌∷◌,
}
use custom_scraper.Prelude.Dict.{Dict, insert, lookup}
use mathlib.Core.Option

pub record ProxyConfig : Type 0 where
  pub http : Option String
  pub https : Option String
  pub tag : Option String
  pub provider : Option String

-- pydantic's `==`: all fields are equal.
unfoldable pub proxy_same : ProxyConfig → ProxyConfig → Bool
proxy_same a b =
    option_same a.http b.http
    && option_same a.https b.https
    && option_same a.tag b.tag
    && option_same a.provider b.provider

pub record ProxyPool : Type 0 where
  pub proxies : List ProxyConfig
  pub idx : ℕ
  pub failures : Dict ℕ ℕ

-- `ProxyPool(proxies)`
unfoldable pub new : List ProxyConfig → ProxyPool
new proxies = record { proxies = proxies; idx = 0; failures = [] }

-- `from_json_file`; `none` when there is no such file.
unfoldable pub from_json_file : Option (List ProxyConfig) → ProxyPool
unfolding new
from_json_file none = new []
from_json_file (some data') = new data'

-- The loop of the source returns in its first round. `get_elem?` is `none` where Python would raise.
unfoldable pub acquire : ProxyPool → Option ProxyConfig × ProxyPool
acquire p = elim p.proxies [
  | [] ↦ (none, p)
  | _ ↦ (get_elem? p.proxies p.idx, record p { idx = (p.idx + 1) % length p.proxies })
]

-- `self._proxies.index(proxy)`, with `none` for the ValueError.
unfoldable pub index_of : ProxyConfig → List ProxyConfig → Option ℕ
unfolding proxy_same
index_of x [] = none
index_of x (y ∷ ys) =
    let rest = index_of x ys in if proxy_same y x then some 0 else Option.map (λ i. i + 1) rest

-- `self._failures.get(idx, 0)`
unfoldable pub failures_at : ProxyPool → ℕ → ℕ
failures_at p i = Option.get_or (lookup i p.failures) 0

unfoldable pub report_failure : ProxyPool → ProxyConfig → ProxyPool
unfolding failures_at
report_failure p proxy = elim (index_of proxy p.proxies) [
  | none ↦ p
  | some i ↦ record p { failures = insert i (failures_at p i + 1) p.failures }
]

unfoldable pub report_success : ProxyPool → ProxyConfig → ProxyPool
unfolding failures_at
report_success p proxy = elim (index_of proxy p.proxies) [
  | none ↦ p
  | some i ↦
      let cur = failures_at p i in
      if ltb 0 cur then record p { failures = insert i (cur - 1) p.failures } else p
]
