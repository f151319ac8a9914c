-- ===== src/Content/Youtube/Timing.antt =====
-- scraping/youtube/utils.py: validate_transcript_timing. Times are floats whose finite values are whole numbers of a unit; a
-- second has `second` of them.
mod Tests
pub mod Laws
use custom_scraper.Content.Youtube.{
  Reason, Segment, Time, at, backwards, duration_differs, failed, missing, no_end, no_start,
  start_negative, timing_invalid, unreadable,
}
use custom_scraper.Prelude.{
  Bool, List, Option, [], false, if◌then◌else◌, inl, inr, ltb, none, some, true, ℕ, ◌&&◌, ◌*◌, ◌||◌,
  ◌∷◌, ◌⊎◌,
}
use custom_scraper.Prelude.Float.{
  Float, at_most, finite, larger, less, minus, minus_infinity, nan, plus_infinity,
}
use custom_scraper.Prelude.Int.{magnitude, pos}

-- The result of the loop: the latest end, or why it returned.
pub data Timed : Type 0 where
  timed : Float → Timed
  untimed : Reason → Timed

abbrev pub no_time : Float
no_time = finite (pos 0)

-- `abs(difference) > tolerance`, with ten times the tolerance.
unfoldable pub exceeds_tenth : Float → ℕ → Bool
exceeds_tenth nan total = false
exceeds_tenth plus_infinity total = true
exceeds_tenth minus_infinity total = true
exceeds_tenth (finite difference) total = ltb total (10 * magnitude difference)

module _ (second : ℕ) where
  -- `start < prev_end_time - 5.0`, which is not asked of the first segment.
  unfoldable pub goes_backwards : Option Float → Float → Bool
  unfolding less minus
  goes_backwards none start = false
  goes_backwards (some prev_end) start = less start (minus prev_end (finite (pos (5 * second))))

  -- The round of the loop for times that could be read: why it returns, or the end of the segment.
  unfoldable pub check_times : Option Float → Float → Float → Reason ⊎ Float
  unfolding goes_backwards at_most
  check_times prev start end =
      if less start no_time
      then inl start_negative
      else if at_most end start || less (finite (pos (600 * second))) (minus end start)
      then inl timing_invalid
      else if goes_backwards prev start
      then inl backwards
      else inr end

  -- The round of the loop; the error of `float` ends the whole validation.
  unfoldable pub check_segment : Option Float → Time → Time → Reason ⊎ Float
  unfolding check_times
  check_segment prev missing end = inl no_start
  check_segment prev unreadable missing = inl no_end
  check_segment prev unreadable unreadable = inl failed
  check_segment prev unreadable (at end) = inl failed
  check_segment prev (at start) missing = inl no_end
  check_segment prev (at start) unreadable = inl failed
  check_segment prev (at start) (at end) = check_times prev start end

  -- The loop over the segments, with the end of the one before and the latest end.
  unfoldable pub check_segments : Option Float → Float → List Segment → Timed
  unfolding check_segment larger
  check_segments prev total [] = timed total
  check_segments prev total (s ∷ ss) = elim (check_segment prev s.start s.end) [
    | inl reason ↦ untimed reason
    | inr end ↦ check_segments (some end) (larger total end) ss
  ]

  -- The end of the function: the latest end is within ten percent of the duration.
  unfoldable pub check_duration : ℕ → Timed → Option Reason
  unfolding exceeds_tenth minus
  check_duration duration (untimed reason) = some reason
  check_duration duration (timed total) =
      if ltb 0 duration
        && exceeds_tenth (minus total (finite (pos (duration * second)))) (duration * second)
      then some duration_differs
      else none

  -- The duration is in seconds.
  unfoldable pub validate_transcript_timing : List Segment → ℕ → Option Reason
  unfolding check_segments check_duration
  validate_transcript_timing [] duration = none
  validate_transcript_timing (s ∷ ss) duration =
      check_duration duration (check_segments none no_time (s ∷ ss))
