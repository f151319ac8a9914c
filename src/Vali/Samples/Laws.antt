-- ===== src/Vali/Samples/Laws.antt =====
-- When `are_entities_valid` accepts, and which bucket is chosen.
use custom_scraper.Prelude.{
  All, Bool-cases, List, [], arith, get_elem?, inl, inr, leb, leb→le, leb→lt, length, nat_key, none,
  option_same_iff, refl, some, string_key, suc, sum_by, take, true, ℕ, ◌+◌, ◌<◌, ◌↔◌, ◌∷◌, ◌≡◌, ◌≤◌,
}
use custom_scraper.Storage.Miner.{DataEntity, added_content_size}
use custom_scraper.Vali.Samples.{
  DataEntityBucket, are_entities_valid, check_entities, choose_at,
  choose_data_entity_bucket_to_query, contains, from_datetime, to_date_range,
}

-- The source, the label and the hour of an entity are those of the bucket.
abbrev pub BelongsTo : DataEntityBucket → DataEntity → Type 0
BelongsTo b e =
    (e.source ≡ b.source) × (e.label ≡ b.label) × (from_datetime e.datetime ≡ b.time_bucket_id)

contains-to_date_range :
    (id datetime : ℕ)
    → (contains (to_date_range id) datetime ≡ true) ↔ (from_datetime datetime ≡ id)
unfolding contains to_date_range from_datetime
contains-to_date_range id datetime = (λ h. ground arith, λ h. ground arith)

check_entities_lem :
    (b : DataEntityBucket) (es : List DataEntity)
    → (check_entities b es ≡ none) ↔ All (BelongsTo b) es
unfolding check_entities
check_entities_lem b [] = (λ h. tt, λ h. refl)
check_entities_lem b (e ∷ es) =
    let (to, from) = check_entities_lem b es in
    let day = contains-to_date_range b.time_bucket_id e.datetime in
    let same = option_same_iff e.label b.label in
    (λ h. ground (arith, day, same, to), λ h. ground (arith, day, same, from))

-- The entities are accepted exactly if each belongs to the bucket by its source, its label and the hour of
-- its instant, and their contents are together no shorter than claimed, both by them and by the bucket.
pub are_entities_valid_lem :
    (es : List DataEntity) (b : DataEntityBucket)
    → (are_entities_valid es b ≡ none) ↔ (
        All (BelongsTo b) es
        × (added_content_size es ≤ sum_by (λ e. length e.content) es)
        × (b.size_bytes ≤ sum_by (λ e. length e.content) es))
unfolding are_entities_valid
are_entities_valid_lem es b =
    let (to, from) = check_entities_lem b es in (λ h. ground (arith, to), λ h. ground (arith, from))

absurd : (a b : ℕ) → b < a → a ≤ b + 0 → ⊥
absurd a b lt le = omega arith

choose_at_lem :
    (chosen_byte iterated_bytes : ℕ) (sizes : List ℕ)
    → iterated_bytes < chosen_byte
    → chosen_byte ≤ iterated_bytes + sum_by (λ s. s) sizes
    → (i : ℕ) × (n : ℕ) × (choose_at chosen_byte iterated_bytes sizes ≡ some i)
      × (get_elem? sizes i ≡ some n)
      × (iterated_bytes + sum_by (λ s. s) (take i sizes) < chosen_byte)
      × (chosen_byte ≤ iterated_bytes + sum_by (λ s. s) (take i sizes) + n)
unfolding choose_at
choose_at_lem chosen_byte iterated_bytes [] lt le =
    elim (absurd chosen_byte iterated_bytes lt le) [ ]
choose_at_lem chosen_byte iterated_bytes (size ∷ sizes) lt le =
    elim (Bool-cases (leb chosen_byte (iterated_bytes + size))) [
      | inl here ↦ (
        0,
        size,
        rw (choose_at, here) refl,
        refl,
        omega arith,
        omega (arith, leb→le chosen_byte (iterated_bytes + size) here),
      )
      | inr later ↦
          let more = leb→lt chosen_byte (iterated_bytes + size) later in
          let (i, n, found, there, above, below) =
            choose_at_lem chosen_byte (iterated_bytes + size) sizes more (omega arith) in
          (suc i, n, rw (choose_at, later, found) refl, there, omega arith, omega arith)
    ]

-- A draw of at least one byte and at most all of them always chooses a bucket: the one that holds that byte, when the
-- scorable bytes are counted through the buckets in their order.
pub choose_data_entity_bucket_to_query_lem :
    (chosen_byte : ℕ) (sizes : List ℕ)
    → 0 < chosen_byte
    → chosen_byte ≤ sum_by (λ s. s) sizes
    → (i : ℕ) × (n : ℕ) × (choose_data_entity_bucket_to_query chosen_byte sizes ≡ some i)
      × (get_elem? sizes i ≡ some n)
      × (sum_by (λ s. s) (take i sizes) < chosen_byte)
      × (chosen_byte ≤ sum_by (λ s. s) (take i sizes) + n)
unfolding choose_data_entity_bucket_to_query
choose_data_entity_bucket_to_query_lem chosen_byte sizes pos le =
    let (i, n, found, there, above, below) = choose_at_lem chosen_byte 0 sizes pos (omega arith) in
    (i, n, found, there, omega arith, omega arith)
