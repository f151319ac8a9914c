-- ===== src/Content/Youtube/Timing/Tests.antt =====
-- Runs of the check of the times of a transcript, in milliseconds.
use custom_scraper.Content.Youtube.{Segment, at, backwards, duration_differs}
use custom_scraper.Content.Youtube.Timing.{validate_transcript_timing}
use custom_scraper.Prelude.{List, [], none, refl, some, ℕ, ◌∷◌, ◌≡◌}
use custom_scraper.Prelude.Float.{finite, nan}
use custom_scraper.Prelude.Int.{pos, ◌-ℤ◌}

abbrev segment : ℕ → ℕ → Segment
segment start end = record {
  text = "a";
  start = at (finite (pos start));
  end = at (finite (pos end));
}

abbrev two_segments : List Segment
two_segments = segment 0 50000 ∷ segment 46000 98000 ∷ []

passing : validate_transcript_timing 1000 two_segments 100 ≡ none
unfolding validate_transcript_timing ◌-ℤ◌
passing = refl

too_long : validate_transcript_timing 1000 two_segments 80 ≡ some duration_differs
unfolding validate_transcript_timing ◌-ℤ◌
too_long = refl

overlapping :
    validate_transcript_timing 1000 (segment 0 50000 ∷ segment 44000 98000 ∷ []) 100
    ≡ some backwards
unfolding validate_transcript_timing ◌-ℤ◌
overlapping = refl

-- An end that is NaN lets the next segment go back to the start.
unordered :
    validate_transcript_timing 1000
      (segment 0 98000 ∷ record { text = "a"; start = at nan; end = at nan } ∷ segment 0 1 ∷ [])
      100
    ≡ none
unfolding validate_transcript_timing ◌-ℤ◌
unordered = refl
