-- ===== src/Vali/Samples.antt =====
-- vali_utils/utils.py: the bucket that a validator asks a miner for, and the checks of what comes back. Instants are
-- seconds since the epoch, in UTC.
pub mod Laws
pub mod Unique
mod Tests
use custom_scraper.Prelude.{
  Bool, List, Option, String, [], false, if◌then◌else◌, leb, length, ltb, member, nat_key, none,
  not, option_same, some, string_key, suc, sum_by, true, ℕ, ◌&&◌, ◌*◌, ◌+◌, ◌/◌, ◌==◌, ◌||◌, ◌∷◌,
}
use custom_scraper.Storage.Miner.{DataEntity, added_content_size}
use mathlib.Core.Option

-- `common.data.TimeBucket.from_datetime`
unfoldable pub from_datetime : ℕ → ℕ
from_datetime seconds = seconds / 3600

-- `common.date_range.DateRange`
pub record DateRange : Type 0 where
  pub start : ℕ
  pub end : ℕ

unfoldable pub to_date_range : ℕ → DateRange
to_date_range id = record { start = id * 3600; end = (id + 1) * 3600 }

unfoldable pub contains : DateRange → ℕ → Bool
contains r datetime = leb r.start datetime && ltb datetime r.end

-- `DataEntityBucket` with its id.
pub record DataEntityBucket : Type 0 where
  pub time_bucket_id : ℕ
  pub source : ℕ
  pub label : Option String
  pub size_bytes : ℕ

-- The loop of `choose_data_entity_bucket_to_query` over the scorable bytes of the buckets: the place of the chosen
-- one. `none` is the failed assertion. For a draw between two whole numbers the next of them chooses the same.
unfoldable pub choose_at : ℕ → ℕ → List ℕ → Option ℕ
choose_at chosen_byte iterated_bytes [] = none
choose_at chosen_byte iterated_bytes (size ∷ sizes) =
    let rest = choose_at chosen_byte (iterated_bytes + size) sizes in
    if leb chosen_byte (iterated_bytes + size) then some 0 else Option.map suc rest

unfoldable pub choose_data_entity_bucket_to_query : ℕ → List ℕ → Option ℕ
unfolding choose_at
choose_data_entity_bucket_to_query chosen_byte sizes = choose_at chosen_byte 0 sizes

pub data Problem : Type 0 where
  wrong_source wrong_label wrong_datetime wrong_size : Problem

-- The loop of `are_entities_valid`, which returns at the first entity that does not fit.
unfoldable pub check_entities : DataEntityBucket → List DataEntity → Option Problem
unfolding to_date_range contains
check_entities b [] = none
check_entities b (e ∷ es) =
    let rest = check_entities b es in
    if not (e.source == b.source)
    then some wrong_source
    else if not (option_same e.label b.label)
    then some wrong_label
    else if not (contains (to_date_range b.time_bucket_id) e.datetime)
    then some wrong_datetime
    else rest

-- `are_entities_valid`; `none` is `(True, "")`.
unfoldable pub are_entities_valid : List DataEntity → DataEntityBucket → Option Problem
unfolding check_entities
are_entities_valid es b =
    let actual_size : ℕ = sum_by (λ e. length e.content) es in
    elim (check_entities b es) [
      | some problem ↦ some problem
      | none ↦
          if ltb actual_size (added_content_size es) || ltb actual_size b.size_bytes
          then some wrong_size
          else none
    ]

-- The loop of `are_entities_unique`, with the hashes and the addresses that it has seen. `hash` is SHA-1, and
-- `normalize` the normal form of an address.
unfoldable pub unique_from :
    (List ℕ → String) → (String → String) → List String → List String → List DataEntity → Bool
unique_from hash normalize hashes uris [] = true
unique_from hash normalize hashes uris (e ∷ es) =
    let rest = unique_from hash normalize (hash e.content ∷ hashes) (normalize e.uri ∷ uris) es in
    if member (hash e.content) hashes || member (normalize e.uri) uris then false else rest

unfoldable pub are_entities_unique : (List ℕ → String) → (String → String) → List DataEntity → Bool
unfolding unique_from
are_entities_unique hash normalize es = unique_from hash normalize [] [] es
