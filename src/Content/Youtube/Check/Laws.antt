-- ===== src/Content/Youtube/Check/Laws.antt =====
-- Which videos are accepted.
use Prim.Native.String.{count}
use custom_scraper.Content.{
  DataEntity, SameFields, accepted, are_non_content_fields_equal_lem, rejected,
}
use custom_scraper.Content.Youtube.{
  Reason, YouTubeContent, check_counts, description_differs, dynamic_fields, low_engagement,
  title_differs, transcript_differs, validate_youtube_thumbnails, validate_youtube_timestamp,
  video_id_differs, view_count,
}
use custom_scraper.Content.Youtube.Check.{
  check_contents, check_description, check_entities, check_video, concluded, cut_to_minute,
  has_low_engagement, judge, unless_similar, validate_youtube_data_entities,
  validate_youtube_description,
}
use custom_scraper.Content.Youtube.Laws.{
  CountFits, InstantFits, ThumbnailsFit, counts_lem, thumbnails_lem, timestamp_lem,
}
use custom_scraper.Content.Youtube.Similarity.{texts_are_similar, transcripts_are_similar}
use custom_scraper.Content.Youtube.Timing.{no_time, validate_transcript_timing}
use custom_scraper.Content.Youtube.Timing.Laws.{
  DurationFits, WellTimed, latest, validate_transcript_timing_lem,
}
use custom_scraper.Prelude.{
  All, Bool, Bool-cases, List, Option, String, arith, false, if◌then◌else◌, inl, inr, length, none,
  not, refl, some, string_key, sym, true, ℕ, ◌+◌, ◌-◌, ◌<◌, ◌↔◌, ◌≡◌, ◌≢◌, ◌≤◌, ◌⊎◌,
}
use custom_scraper.Prelude.Iff.{
  first_problem, first_problem_iff, if_problem_iff, iff_both, iff_refl, iff_trans, unless_iff,
}
use custom_scraper.Ratio.{Ratio}
use mathlib.Core.Option.{some-injective}
use mathlib.Core.Path.{subst}

last_problem :
    (b : Bool) (reason : Reason) → ((if b then some reason else none) ≡ none) ↔ (b ≡ false)
last_problem true reason = (λ h. cc, λ h. cc)
last_problem false reason = (λ h. refl, λ h. refl)

similar_lem :
    (o : Option Bool) (reason : Reason) → (unless_similar o reason ≡ none) ↔ (o ≡ some true)
unfolding unless_similar
similar_lem none reason = (λ h. cc, λ h. cc)
similar_lem (some true) reason = (λ h. refl, λ h. refl)
similar_lem (some false) reason = (λ h. cc, λ h. cc)

-- At least 100 views were found; the instant and the id fit; title and transcript are similar; the transcript is well
-- timed.
abbrev pub VideoFits : (String → List String) → ℕ → ℕ → ℕ → YouTubeContent → YouTubeContent → Type 0
VideoFits words second required now s a =
    (has_low_engagement (a.counts view_count) ≡ false)
    × (InstantFits required now s.upload_date a.upload_date
        × ((a.video_id ≡ s.video_id)
            × ((texts_are_similar words 80 a.title s.title ≡ some true)
                × ((transcripts_are_similar words 70 a.transcript s.transcript ≡ some true)
                    × (WellTimed second none s.transcript
                        × (0 < length s.transcript
                            → DurationFits second s.duration_seconds
                                (latest no_time s.transcript)))))))

video_lem :
    (words : String → List String) (second required now : ℕ) (s a : YouTubeContent)
    → (check_video words second required now s a ≡ none) ↔ VideoFits words second required now s a
unfolding check_video
video_lem words second required now s a =
    let timing = validate_transcript_timing second s.transcript s.duration_seconds in
    let title = texts_are_similar words 80 a.title s.title in
    let transcript = transcripts_are_similar words 70 a.transcript s.transcript in
    let rest = first_problem (unless_similar transcript transcript_differs) timing in
    let titled = first_problem (unless_similar title title_differs) rest in
    let ided =
      if not (string_key.same a.video_id s.video_id) then some video_id_differs else titled in
    let stamp = validate_youtube_timestamp required now s.upload_date a.upload_date in
    iff_trans
      (if_problem_iff (has_low_engagement (a.counts view_count)) low_engagement
        (first_problem stamp ided))
      (iff_both (iff_refl _) (
        iff_trans (first_problem_iff stamp ided) (
          iff_both (timestamp_lem required now s.upload_date a.upload_date) (
            iff_trans (unless_iff (string_key.same a.video_id s.video_id) video_id_differs titled) (
              iff_both (string_key.same_iff a.video_id s.video_id) (
                iff_trans (first_problem_iff (unless_similar title title_differs) rest) (
                  iff_both (similar_lem title title_differs) (
                    iff_trans
                      (first_problem_iff (unless_similar transcript transcript_differs) timing)
                      (iff_both (similar_lem transcript transcript_differs) (
                        validate_transcript_timing_lem second s.transcript
                          s.duration_seconds))))))))))

-- The entities have the same fields, with their instants cut to the minute, and the one claims at most 20 bytes more.
abbrev pub EntitiesFit : DataEntity → DataEntity → Type 0
EntitiesFit e a =
    SameFields (cut_to_minute a) (cut_to_minute e)
    × (e.content_size_bytes ≤ a.content_size_bytes + 20)

entities_lem : (e a : DataEntity) → (check_entities e a ≡ none) ↔ EntitiesFit e a
unfolding check_entities
entities_lem e a =
    let same = are_non_content_fields_equal_lem (cut_to_minute a) (cut_to_minute e) in
    (λ h. ground (arith, same), λ h. ground (arith, same))

-- Without a description there is none to be found; an empty one passes; any other has at most 5000 characters and is
-- similar to the one that was found, which is not empty.
abbrev pub DescriptionFits :
    (String → List String) → (String → Bool) → Option String → Option String → Type 0
DescriptionFits words is_blank none none = Unit
DescriptionFits words is_blank none (some actual) = (actual ≡ "") ⊎ (is_blank actual ≡ true)
DescriptionFits words is_blank (some d) none = d ≡ ""
DescriptionFits words is_blank (some d) (some actual) =
    (d ≡ "")
    ⊎ ((count d ≤ 5000) × (actual ≢ "") × (texts_are_similar words 95 d actual ≡ some true))

description_lem :
    (words : String → List String) (is_blank : String → Bool) (s a : Option String)
    → (validate_youtube_description words is_blank s a ≡ none) ↔ DescriptionFits words is_blank s a
unfolding validate_youtube_description check_description
description_lem words is_blank none none = (λ h. tt, λ h. refl)
description_lem words is_blank none (some a) = (
  λ h. elim (Bool-cases (string_key.same a "")) [
    | inl empty ↦ inl ((string_key.same_iff a "").0 empty)
    | inr other ↦ inr (ground arith)
  ],
  λ h. ground (arith, string_key.same_iff a ""),
)
description_lem words is_blank (some d) none =
    (λ h. ground (arith, string_key.same_iff d ""), λ h. ground (arith, string_key.same_iff d ""))
description_lem words is_blank (some d) (some a) =
    let similar = similar_lem (texts_are_similar words 95 d a) description_differs in
    (
      λ h. elim (Bool-cases (string_key.same d "")) [
        | inl empty ↦ inl ((string_key.same_iff d "").0 empty)
        | inr other ↦
            inr
              (ground arith, λ k. ground (arith, string_key.same_iff a ""), ground (arith, similar))
      ],
      λ h. ground (arith, string_key.same_iff d "", string_key.same_iff a "", similar),
    )

concluded_lem :
    (e : DataEntity) (o : Option Reason) → ((concluded e o).is_valid ≡ true) ↔ (o ≡ none)
unfolding concluded accepted rejected
concluded_lem e none = (λ h. refl, λ h. refl)
concluded_lem e (some reason) = (λ h. cc, λ h. cc)

module _ (words : String → List String) (is_blank : String → Bool) (log10 : ℕ → Ratio)
    (root : ℕ → ℕ) (second required now : ℕ) where
  -- What the content that was submitted has to meet against the one that was found.
  abbrev pub Agrees : DataEntity → DataEntity → YouTubeContent → YouTubeContent → Type 0
  Agrees e a_entity s a =
      VideoFits words second required now s a
      × (EntitiesFit e a_entity
          × (DescriptionFits words is_blank s.description a.description
              × (ThumbnailsFit s.thumbnails a.thumbnails
                  × All
                      (λ f. CountFits log10 root f (now - s.upload_date) (a.counts f) (s.counts f))
                      dynamic_fields)))

  contents_lem :
      (e a_entity : DataEntity) (s a : YouTubeContent)
      → (check_contents words is_blank log10 root second required now e a_entity s a ≡ none)
        ↔ Agrees e a_entity s a
  unfolding check_contents
  contents_lem e a_entity s a =
      let counts = check_counts log10 root dynamic_fields (now - s.upload_date) s a in
      let thumbnails =
        first_problem (validate_youtube_thumbnails s.thumbnails a.thumbnails) counts in
      let description =
        first_problem (validate_youtube_description words is_blank s.description a.description)
          thumbnails in
      let entities = first_problem (check_entities e a_entity) description in
      iff_trans (first_problem_iff (check_video words second required now s a) entities) (
        iff_both (video_lem words second required now s a) (
          iff_trans (first_problem_iff (check_entities e a_entity) description) (
            iff_both (entities_lem e a_entity) (
              iff_trans
                (first_problem_iff
                  (validate_youtube_description words is_blank s.description a.description)
                  thumbnails)
                (iff_both (description_lem words is_blank s.description a.description) (
                  iff_trans
                    (first_problem_iff (validate_youtube_thumbnails s.thumbnails a.thumbnails)
                      counts)
                    (iff_both (thumbnails_lem s.thumbnails a.thumbnails)
                      (counts_lem log10 root dynamic_fields (now - s.upload_date) s a))))))))

  judge_lem :
      (e a_entity : DataEntity) (o p : Option YouTubeContent)
      → ((judge words is_blank log10 root second required now e a_entity o p).is_valid ≡ true) ↔ (
          (s : YouTubeContent) × (a : YouTubeContent) × ((o ≡ some s)
            × (p ≡ some a)
            × Agrees e a_entity s a))
  unfolding judge rejected
  judge_lem e a_entity none p = (λ h. cc, λ h. cc (h.2.0))
  judge_lem e a_entity (some s) none = (λ h. cc, λ h. cc (h.2.1))
  judge_lem e a_entity (some s) (some a) =
      let (to, from) =
        iff_trans
          (concluded_lem e
            (check_contents words is_blank log10 root second required now e a_entity s a))
          (contents_lem e a_entity s a) in
      (
        λ h. (s, a, (refl, refl, to h)),
        λ (t, b, (same, there, fits)). from (
            subst (λ (t : YouTubeContent). Agrees e a_entity t a) (sym (some-injective s t same))
              (subst (λ (b : YouTubeContent). Agrees e a_entity t b)
                (sym (some-injective a b there)) fits)),
      )

  -- Every run ends with a result, which accepts exactly if both entities can be decoded and their contents agree: enough
  -- views, the instant (cut to the minute from the date on), the id, a similar title and transcript, and a transcript that
  -- is well timed, where a time that is NaN escapes the tests; entities of the same fields up to the minute, of which the one claims at most 20 bytes more; a
  -- description and a thumbnail that fit; and counts of which none is negative, that are near to the ones found, or do not
  -- exceed them by more than the tolerance for decreases.
  pub validate_youtube_data_entities_lem :
      (decode : List ℕ → Option YouTubeContent) (e a_entity : DataEntity)
      → ((validate_youtube_data_entities words is_blank log10 root second required now decode e
            a_entity).is_valid
          ≡ true)
        ↔ ((s : YouTubeContent) × (a : YouTubeContent) × ((decode e.content ≡ some s)
              × (decode a_entity.content ≡ some a)
              × Agrees e a_entity s a))
  unfolding validate_youtube_data_entities
  validate_youtube_data_entities_lem decode e a_entity =
      judge_lem e a_entity (decode e.content) (decode a_entity.content)
