-- ===== src/Content/Youtube/Check/Tests.antt =====
-- Runs of the checks of videos.
use custom_scraper.Content.{
  DataEntity, ValidationResult, accepted, are_non_content_fields_equal,
  obfuscate_datetime_to_minute, rejected,
}
use custom_scraper.Content.Counts.{check_increasing, check_percentage, engagement_tolerance}
use custom_scraper.Content.Youtube.{
  Reason, YouTubeContent, at, check_counts, description_missing, passed,
  validate_youtube_thumbnails, validate_youtube_timestamp,
}
use custom_scraper.Content.Youtube.Check.{validate_youtube_data_entities}
use custom_scraper.Content.Youtube.Check.Laws.{Agrees, validate_youtube_data_entities_lem}
use custom_scraper.Content.Youtube.Similarity.{texts_are_similar, transcripts_are_similar}
use custom_scraper.Content.Youtube.Timing.{validate_transcript_timing}
use custom_scraper.Prelude.{
  List, Option, String, [], false, if◌then◌else◌, member, nat_key, none, refl, some, true, ℕ, ◌↔◌,
  ◌∷◌, ◌≡◌,
}
use custom_scraper.Prelude.Float.{finite}
use custom_scraper.Prelude.Int.{pos, ◌+ℤ◌, ◌-ℤ◌}
use custom_scraper.Ratio.{over}

abbrev video : ℕ → Option String → YouTubeContent
video views description = record {
  video_id = "v";
  title = "a";
  channel_name = "c";
  upload_date = 120000000;
  transcript =
      record { text = "a"; start = at (finite (pos 0)); end = at (finite (pos 9800)) } ∷ [];
  url = "u";
  duration_seconds = 10;
  language = "en";
  thumbnails = some "t";
  description = description;
  counts = λ f. some (pos views);
}

abbrev entity : ℕ → DataEntity
entity size = record {
  uri = "u";
  datetime = 120000000;
  source = 3;
  label = some "#ytc_c_c";
  content = size ∷ [];
  content_size_bytes = size;
}

-- The content of the entity of so many bytes: of 100, the one that was found.
abbrev decode : ℕ → Option String → List ℕ → Option YouTubeContent
decode views description bytes =
    if member 100 bytes then some (video 1000 (some "d")) else some (video views description)

abbrev validated : ℕ → Option String → ValidationResult Reason
validated views description =
    validate_youtube_data_entities (λ t. t ∷ []) (λ t. false) (λ n. over 2 1) (λ n. n) 1000 0
      3720000000 (decode views description) (entity 120) (entity 100)

honest : validated 990 (some "d") ≡ accepted passed (entity 120)
unfolding validate_youtube_data_entities member accepted validate_youtube_timestamp
    obfuscate_datetime_to_minute texts_are_similar transcripts_are_similar
    validate_transcript_timing are_non_content_fields_equal validate_youtube_thumbnails check_counts
    check_increasing ◌+ℤ◌ ◌-ℤ◌ engagement_tolerance check_percentage
honest = refl

omitted : validated 990 none ≡ rejected description_missing (entity 120)
unfolding validate_youtube_data_entities member rejected validate_youtube_timestamp
    obfuscate_datetime_to_minute texts_are_similar transcripts_are_similar
    validate_transcript_timing are_non_content_fields_equal ◌-ℤ◌
omitted = refl

-- An empty description passes where none is refused.
emptied : validated 990 (some "") ≡ accepted passed (entity 120)
unfolding validate_youtube_data_entities member accepted validate_youtube_timestamp
    obfuscate_datetime_to_minute texts_are_similar transcripts_are_similar
    validate_transcript_timing are_non_content_fields_equal validate_youtube_thumbnails check_counts
    check_increasing ◌+ℤ◌ ◌-ℤ◌ engagement_tolerance check_percentage
emptied = refl

validate_youtube_data_entities_lem_example : ((validated 990 (some "d")).is_valid ≡ true) ↔ (
    (s : YouTubeContent) × (a : YouTubeContent) × ((decode 990 (some "d") (120 ∷ []) ≡ some s)
      × (decode 990 (some "d") (100 ∷ []) ≡ some a)
      × Agrees
          (λ t. t ∷ [])
          (λ t. false)
          (λ n. over 2 1)
          (λ n. n)
          1000
          0
          3720000000
          (entity 120)
          (entity 100)
          s
          a))
validate_youtube_data_entities_lem_example =
    validate_youtube_data_entities_lem (λ t. t ∷ []) (λ t. false) (λ n. over 2 1) (λ n. n) 1000 0
      3720000000 (decode 990 (some "d")) (entity 120) (entity 100)
