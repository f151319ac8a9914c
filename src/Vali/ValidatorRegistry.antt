-- ===== src/Vali/ValidatorRegistry.antt =====
-- vali_utils/load_balancer/validator_registry.py: the validators that take requests, and their time-outs. Times
-- are seconds.
pub mod Laws
mod Tests
use custom_scraper.Prelude.{
  Bool, List, String, [], drop, if◌then◌else◌, leb, length, min, nat_key, string_key, take, ℕ, ◌%◌,
  ◌&&◌, ◌*◌, ◌++◌, ◌+◌, ◌∷◌,
}
use custom_scraper.Prelude.Dict.{Dict, modify}
use custom_scraper.Sorting.{sorted}

pub record Validator : Type 0 where
  pub uid : ℕ
  pub stake : ℕ
  pub axon : String
  pub hotkey : String
  pub timeout : ℕ
  pub available_at : ℕ

pub record ValidatorRegistry : Type 0 where
  pub validators : Dict ℕ Validator
  pub current_index : ℕ

-- `update_failure`
unfoldable pub update_failure : ℕ → String → Validator → Validator
update_failure current_time status v =
    let timeout : ℕ = min (v.timeout * 4) 86400 in
    if string_key.same status "error"
    then record v { timeout = timeout; available_at = current_time + timeout }
    else record v { timeout = 1; available_at = current_time }

unfoldable pub is_available : ℕ → Validator → Bool
is_available now v = leb v.available_at now

-- What the registry reads of a neuron of the metagraph.
pub record Neuron : Type 0 where
  pub stake : ℕ
  pub axon : String
  pub hotkey : String

-- `__init__`: the neurons from `uid` on with stake enough and a key on the white list.
unfoldable pub listed : (String → Bool) → ℕ → List Neuron → Dict ℕ Validator
listed whitelisted uid [] = []
listed whitelisted uid (n ∷ ns) =
    let rest = listed whitelisted (uid + 1) ns in
    if leb 50000 n.stake && whitelisted n.hotkey
    then (
      uid,
      record {
        uid = uid;
        stake = n.stake;
        axon = n.axon;
        hotkey = n.hotkey;
        timeout = 1;
        available_at = 0;
      },
    )
      ∷ rest
    else rest

unfoldable pub init : (String → Bool) → List Neuron → ValidatorRegistry
unfolding listed
init whitelisted metagraph = record {
  validators = listed whitelisted 0 metagraph;
  current_index = 0;
}

-- `[uid for uid, validator in self.validators.items() if validator.is_available()]`
unfoldable pub available_uids : ℕ → Dict ℕ Validator → List ℕ
unfolding is_available
available_uids now [] = []
available_uids now ((uid, v) ∷ vs) =
    let rest = available_uids now vs in if is_available now v then uid ∷ rest else rest

-- The order from an index on, and the index of the next call.
unfoldable pub rotate : ℕ → List ℕ → List ℕ × ℕ
rotate index available =
    (drop index available ++ take index available, (index + 1) % length available)

-- `get_available_validators`
unfoldable pub get_available_validators : ℕ → ValidatorRegistry → List ℕ × ValidatorRegistry
unfolding available_uids rotate
get_available_validators now reg = elim (sorted (available_uids now reg.validators)) [
  | [] ↦ ([], reg)
  | u ∷ us ↦
      let index : ℕ = if leb (length (u ∷ us)) reg.current_index then 0 else reg.current_index in
      let (ordered, next_index) = rotate index (u ∷ us) in
      (ordered, record reg { current_index = next_index })
]

-- `update_validators`
unfoldable pub update_validators : ℕ → ℕ → String → ValidatorRegistry → ValidatorRegistry
unfolding update_failure
update_validators now uid response_code reg = record reg {
  validators = modify uid (update_failure now response_code) reg.validators;
}
