-- ===== src/Reddit/ProxyPool/Tests.antt =====
-- Runs of the proxy pool.
use custom_scraper.Prelude.{[], nat_key, none, refl, some, ◌∷◌, ◌≡◌}
use custom_scraper.Prelude.Dict.{insert, lookup}
use custom_scraper.Reddit.ProxyPool.{
  ProxyConfig, ProxyPool, acquire, failures_at, index_of, new, report_failure,
}
use custom_scraper.Reddit.ProxyPool.Rotation.{after}

abbrev proxy_a : ProxyConfig
proxy_a = record { http = some "http://a"; https = none; tag = none; provider = none }

abbrev proxy_b : ProxyConfig
proxy_b = record { http = some "http://b"; https = none; tag = some "eu"; provider = none }

abbrev two : ProxyPool
two = record { proxies = proxy_a ∷ proxy_b ∷ []; idx = 1; failures = [] }

in_turn : ((acquire two).0 ≡ some proxy_b) × ((acquire (after 1 two)).0 ≡ some proxy_a)
unfolding acquire after
in_turn = (refl, refl)

counted : failures_at (report_failure two proxy_b) 1 ≡ 1
unfolding report_failure index_of lookup insert
counted = refl

empty_pool : (acquire (new [])).0 ≡ none
unfolding acquire new
empty_pool = refl
