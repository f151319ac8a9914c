-- ===== src/Common/MetagraphSyncer/Laws.antt =====
-- Who is told of a metagraph.
-- The listeners of a netuid.
use custom_scraper.Common.Metagraph.{Metagraph}
use custom_scraper.Common.MetagraphSyncer.{
  MetagraphMap, State, get_metagraph, notified, register_all, register_listener, store, sync,
}
use custom_scraper.Prelude.{
  List, [], map, nat_key, none, refl, same_refl, some, true, ℕ, ◌++◌, ◌∙◌, ◌∷◌, ◌≡◌,
}
use custom_scraper.Prelude.Dict.{lookup, lookup-modify, modify}
use mathlib.Core.Option

abbrev pub listeners_of : ℕ → MetagraphMap → List ℕ
listeners_of netuid d = elim (lookup netuid d) [ none ↦ [] | some s ↦ s.listeners ]

-- A listener that is registered for a tracked netuid, and then a sync of it: the metagraph is the new one, and the
-- calls go to the listeners that were there, in order, and then to the new one.
pub sync-register_listener :
    (netuid listener now : ℕ) (metagraph : Metagraph) (d : MetagraphMap) (s : State)
    → lookup netuid d ≡ some s
    → (d' : MetagraphMap) × (register_listener listener (netuid ∷ []) d ≡ (true, d'))
      × (get_metagraph netuid (sync netuid (some metagraph) now d').0 ≡ some metagraph)
      × ((sync netuid (some metagraph) now d').1
          ≡ map (λ l. (l, (metagraph, netuid))) (s.listeners ++ listener ∷ []))
unfolding register_listener register_all sync get_metagraph notified store Option.bind
sync-register_listener netuid listener now metagraph d s e =
    let add : State → State = λ s. record s { listeners = s.listeners ++ listener ∷ [] } in
    let put : State → State =
      λ s. record s { metagraph = some metagraph; last_synced_time = some now } in
    let d' : MetagraphMap = modify netuid add d in
    let one : lookup netuid d' ≡ some (add s) =
      lookup-modify netuid netuid add d ∙ rw (same_refl netuid, e) refl in
    let two : lookup netuid (modify netuid put d') ≡ some (put (add s)) =
      lookup-modify netuid netuid put d' ∙ rw (same_refl netuid, one) refl in
    (
      d',
      rw (register_listener, register_all, e) refl,
      rw (sync, one, get_metagraph, store, two) refl,
      rw (sync, one, notified, store, two) refl,
    )
