-- ===== src/Common/MetagraphSyncer.antt =====
-- common/metagraph_syncer.py: the metagraphs by netuid, and who is told of a new one. A listener is a number. Its
-- lock makes each locked part one step.
pub mod Laws
mod Tests
use custom_scraper.Common.Metagraph.{Metagraph}
use custom_scraper.Prelude.{
  Bool, List, Option, [], false, map, nat_key, none, some, true, ℕ, ◌++◌, ◌∷◌,
}
use custom_scraper.Prelude.Dict.{Dict, lookup, modify}
use mathlib.Core.Option

pub record State : Type 0 where
  pub metagraph : Option Metagraph
  pub last_synced_time : Option ℕ
  pub listeners : List ℕ

abbrev pub MetagraphMap : Type 0
MetagraphMap = Dict ℕ State

abbrev pub new_state : State
new_state = record { metagraph = none; last_synced_time = none; listeners = [] }

-- `__init__`, over the netuids of the configuration.
unfoldable pub init : List ℕ → MetagraphMap
init [] = []
init (netuid ∷ netuids) = (netuid, new_state) ∷ init netuids

-- What a sync stores.
unfoldable pub store : ℕ → Metagraph → ℕ → MetagraphMap → MetagraphMap
store netuid metagraph now d =
    modify netuid (λ s. record s { metagraph = some metagraph; last_synced_time = some now }) d

-- The loop of `register_listener`: whether it ends, and what it leaves. It raises at the first netuid that is not
-- tracked.
unfoldable pub register_all : ℕ → List ℕ → MetagraphMap → Bool × MetagraphMap
register_all listener [] d = (true, d)
register_all listener (netuid ∷ netuids) d = elim (lookup netuid d) [
  | none ↦ (false, d)
  | some s ↦
      register_all listener netuids
        (modify netuid (λ s. record s { listeners = s.listeners ++ listener ∷ [] }) d)
]

unfoldable pub register_listener : ℕ → List ℕ → MetagraphMap → Bool × MetagraphMap
unfolding register_all
register_listener listener [] d = (false, d)
register_listener listener (netuid ∷ netuids) d = register_all listener (netuid ∷ netuids) d

-- `get_metagraph`; `none` is a ValueError.
unfoldable pub get_metagraph : ℕ → MetagraphMap → Option Metagraph
get_metagraph netuid d = Option.bind (lookup netuid d) (λ s. s.metagraph)

-- `_notify_listeners`, after a sync: the calls that are made, in order. What a listener raises is caught.
unfoldable pub notified : ℕ → MetagraphMap → List (ℕ × (Metagraph × ℕ))
notified netuid d = elim (lookup netuid d) [
  | none ↦ []
  | some s ↦ elim s.metagraph [
    | none ↦ []
    | some metagraph ↦ map (λ listener. (listener, (metagraph, netuid))) s.listeners
  ]
]

-- One turn of `_sync_metagraph_loop`: the new map and the calls. `fetched` is what the chain answers; with no answer
-- nothing changes.
unfoldable pub sync :
    ℕ → Option Metagraph → ℕ → MetagraphMap → MetagraphMap × List (ℕ × (Metagraph × ℕ))
unfolding store notified
sync netuid none now d = (d, [])
sync netuid (some metagraph) now d = elim (lookup netuid d) [
  | none ↦ (d, [])
  | some _ ↦ (store netuid metagraph now d, notified netuid (store netuid metagraph now d))
]
