-- ===== src/Vali/Samples/Tests.antt =====
-- Runs of the checks.
use custom_scraper.Prelude.{
  All, IsDistinct, List, String, [], false, length, map, member, nat_key, none, refl, some,
  string_key, sum_by, true, ℕ, ◌↔◌, ◌∷◌, ◌≡◌, ◌≤◌,
}
use custom_scraper.Storage.Miner.{DataEntity, added_content_size}
use custom_scraper.Vali.Samples.{
  DataEntityBucket, are_entities_unique, are_entities_valid, wrong_datetime, wrong_size,
}
use custom_scraper.Vali.Samples.Laws.{BelongsTo, are_entities_valid_lem}
use custom_scraper.Vali.Samples.Unique.{are_entities_unique_lem}

abbrev entity : ℕ → DataEntity
entity datetime = record {
  uri = "a";
  datetime = datetime;
  time_bucket_id = 0;
  source = 1;
  label = some "r/a";
  content = 116 ∷ 117 ∷ [];
  content_size_bytes = 2;
}

abbrev bucket : DataEntityBucket
bucket = record { time_bucket_id = 2; source = 1; label = some "r/a"; size_bytes = 4 }

fits : are_entities_valid (entity 7200 ∷ entity 10799 ∷ []) bucket ≡ none
unfolding are_entities_valid
fits = refl

too_late : are_entities_valid (entity 7200 ∷ entity 10800 ∷ []) bucket ≡ some wrong_datetime
unfolding are_entities_valid
too_late = refl

too_short : are_entities_valid (entity 7200 ∷ []) bucket ≡ some wrong_size
unfolding are_entities_valid
too_short = refl

are_entities_valid_lem_example : (are_entities_valid (entity 7200 ∷ []) bucket ≡ none) ↔ (
    All (BelongsTo bucket) (entity 7200 ∷ [])
    × (added_content_size (entity 7200 ∷ []) ≤ sum_by (λ e. length e.content) (entity 7200 ∷ []))
    × (bucket.size_bytes ≤ sum_by (λ e. length e.content) (entity 7200 ∷ [])))
are_entities_valid_lem_example = are_entities_valid_lem (entity 7200 ∷ []) bucket

-- A hash and a normal form that keep what they are given apart, on the contents that are used here.
abbrev digest : List ℕ → String
digest [] = "empty"
digest (_ ∷ _) = "full"

repeated : are_entities_unique digest (λ uri. uri) (entity 7200 ∷ entity 7201 ∷ []) ≡ false
unfolding are_entities_unique member
repeated = refl

are_entities_unique_lem_example :
    (are_entities_unique digest (λ uri. uri) (entity 7200 ∷ []) ≡ true) ↔ (
      IsDistinct (map (λ e. digest e.content) (entity 7200 ∷ []))
      × IsDistinct (map (λ (e : DataEntity). e.uri) (entity 7200 ∷ [])))
are_entities_unique_lem_example = are_entities_unique_lem digest (λ uri. uri) (entity 7200 ∷ [])
