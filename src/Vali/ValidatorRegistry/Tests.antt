-- ===== src/Vali/ValidatorRegistry/Tests.antt =====
-- Runs of the registry.
use custom_scraper.Prelude.{[], nat_key, refl, string_key, ℕ, ◌∷◌, ◌≡◌}
use custom_scraper.Prelude.Dict.{modify}
use custom_scraper.Sorting.{sorted}
use custom_scraper.Vali.ValidatorRegistry.{
  Validator, ValidatorRegistry, available_uids, get_available_validators, update_validators,
}
use custom_scraper.Vali.ValidatorRegistry.Laws.{get_available_validators-Perm}
use mathlib.Core.List.{Perm}

abbrev validator : ℕ → Validator
validator uid = record {
  uid = uid;
  stake = 60000;
  axon = "127.0.0.1";
  hotkey = "key";
  timeout = 1;
  available_at = 0;
}

abbrev registry : ValidatorRegistry
registry = record {
  validators = (4, validator 4) ∷ (7, validator 7) ∷ (9, validator 9) ∷ [];
  current_index = 1;
}

goes_round : (get_available_validators 5 registry).0 ≡ 7 ∷ 9 ∷ 4 ∷ []
unfolding get_available_validators sorted
goes_round = refl

leaves_out : (get_available_validators 5 (update_validators 3 7 "error" registry)).0 ≡ 9 ∷ 4 ∷ []
unfolding get_available_validators sorted update_validators modify
leaves_out = refl

get_available_validators-Perm_example :
    Perm (available_uids 5 registry.validators) (get_available_validators 5 registry).0
get_available_validators-Perm_example = get_available_validators-Perm 5 registry
