-- ===== src/Common/MetagraphSyncer/Tests.antt =====
-- One netuid with one listener.
use custom_scraper.Common.Metagraph.{Metagraph}
use custom_scraper.Common.MetagraphSyncer.{MetagraphMap}
use custom_scraper.Prelude.{[], false, nat_key, none, ◌∷◌}

abbrev tracked : MetagraphMap
tracked = (13, record { metagraph = none; last_synced_time = none; listeners = 4 ∷ [] }) ∷ []

abbrev fetched : Metagraph
fetched = record { hotkey = "a"; validator_permit = false; stake = 0 } ∷ []
