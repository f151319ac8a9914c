-- ===== src/Content/Youtube/Timing/Laws.antt =====
-- Which transcripts pass by their times.
use custom_scraper.Content.Youtube.{Reason, Segment, Time, at, missing, unreadable}
use custom_scraper.Content.Youtube.Timing.{
  Timed, check_duration, check_segment, check_segments, check_times, exceeds_tenth, goes_backwards,
  no_time, timed, untimed, validate_transcript_timing,
}
use custom_scraper.Prelude.{
  List, Option, [], ap, arith, false, inl, inr, length, none, refl, some, sym, ℕ, ◌*◌, ◌+◌, ◌<◌,
  ◌↔◌, ◌∙◌, ◌∷◌, ◌≡◌, ◌≤◌, ◌⊎◌,
}
use custom_scraper.Prelude.Float.{
  Float, at_most, finite, larger, less, minus, minus_infinity, nan, plus_infinity,
}
use custom_scraper.Prelude.Int.{difference_parts, negsuc, pos, ◌≤ℤ◌}
use mathlib.Core.Path.{subst}

-- A time, or NaN for one that is not there.
abbrev pub end_of : Time → Float
end_of missing = nan
end_of unreadable = nan
end_of (at t) = t

-- The latest end; one that is NaN does not count.
unfoldable pub latest : Float → List Segment → Float
latest total [] = total
latest total (s ∷ ss) = latest (larger total (end_of s.end)) ss

module _ (second : ℕ) where
  -- A start lies at most five seconds before the end of the segment before it, if there is one and it is finite. After
  -- an end that is NaN every start will do.
  abbrev pub KeepsUp : Option Float → ℕ → Type 0
  KeepsUp none start = Unit
  KeepsUp (some nan) start = Unit
  KeepsUp (some minus_infinity) start = Unit
  KeepsUp (some plus_infinity) start = ⊥
  KeepsUp (some (finite prev)) start = prev ≤ℤ pos (start + 5 * second)

  -- A finite segment has a start that is not negative and keeps up, and an end after it by at most ten minutes. But a start
  -- that is NaN passes with any end, and an end that is NaN with a start that is infinite, or not negative and keeps up.
  abbrev pub FitsTimes : Option Float → Float → Float → Type 0
  FitsTimes prev nan end = Unit
  FitsTimes prev minus_infinity end = ⊥
  FitsTimes prev plus_infinity nan = Unit
  FitsTimes prev plus_infinity plus_infinity = ⊥
  FitsTimes prev plus_infinity minus_infinity = ⊥
  FitsTimes prev plus_infinity (finite end) = ⊥
  FitsTimes prev (finite (negsuc n)) end = ⊥
  FitsTimes prev (finite (pos start)) nan = KeepsUp prev start
  FitsTimes prev (finite (pos start)) plus_infinity = ⊥
  FitsTimes prev (finite (pos start)) minus_infinity = ⊥
  FitsTimes prev (finite (pos start)) (finite (negsuc n)) = ⊥
  FitsTimes prev (finite (pos start)) (finite (pos end)) =
      (start < end) × (end ≤ start + 600 * second) × KeepsUp prev start

  -- A segment has a start and an end that can be read, and fit.
  abbrev pub FitsSegment : Option Float → Time → Time → Type 0
  FitsSegment prev (at start) (at end) = FitsTimes prev start end
  FitsSegment prev (at start) missing = ⊥
  FitsSegment prev (at start) unreadable = ⊥
  FitsSegment prev missing end = ⊥
  FitsSegment prev unreadable end = ⊥

  abbrev pub WellTimed : Option Float → List Segment → Type 0
  WellTimed prev [] = Unit
  WellTimed prev (s ∷ ss) = FitsSegment prev s.start s.end × WellTimed (some (end_of s.end)) ss

  keeps_up :
      (prev : Option Float) (start : ℕ)
      → (goes_backwards second prev (finite (pos start)) ≡ false) ↔ KeepsUp prev start
  unfolding goes_backwards less minus
  keeps_up none start = (λ h. tt, λ h. refl)
  keeps_up (some nan) start = (λ h. tt, λ h. refl)
  keeps_up (some minus_infinity) start = (λ h. tt, λ h. refl)
  keeps_up (some plus_infinity) start = (λ h. cc, λ h. elim h [ ])
  keeps_up (some (finite prev)) start = (
    λ h. ground (arith, difference_parts prev (pos (5 * second))),
    λ h. ground (arith, difference_parts prev (pos (5 * second))),
  )

  infinite_keeps_up : (prev : Option Float) → goes_backwards second prev plus_infinity ≡ false
  unfolding goes_backwards less
  infinite_keeps_up none = refl
  infinite_keeps_up (some prev) = refl

  nan_keeps_up : (prev : Option Float) → goes_backwards second prev nan ≡ false
  unfolding goes_backwards less
  nan_keeps_up none = refl
  nan_keeps_up (some prev) = refl

  nan_passes : (prev : Option Float) (end : Float) → check_times second prev nan end ≡ inr end
  unfolding check_times less at_most minus
  nan_passes prev nan = ground (arith, nan_keeps_up prev)
  nan_passes prev plus_infinity = ground (arith, nan_keeps_up prev)
  nan_passes prev minus_infinity = ground (arith, nan_keeps_up prev)
  nan_passes prev (finite end) = ground (arith, nan_keeps_up prev)

  fits_passes :
      (prev : Option Float) (start end : Float)
      → FitsTimes prev start end
      → check_times second prev start end ≡ inr end
  unfolding check_times less at_most minus
  fits_passes prev nan end h = nan_passes prev end
  fits_passes prev minus_infinity end h = elim h [ ]
  fits_passes prev plus_infinity nan h = ground (arith, infinite_keeps_up prev)
  fits_passes prev plus_infinity plus_infinity h = elim h [ ]
  fits_passes prev plus_infinity minus_infinity h = elim h [ ]
  fits_passes prev plus_infinity (finite end) h = elim h [ ]
  fits_passes prev (finite (negsuc n)) end h = elim h [ ]
  fits_passes prev (finite (pos s)) nan h = let k = (keeps_up prev s).1 h in ground (arith, k)
  fits_passes prev (finite (pos s)) plus_infinity h = elim h [ ]
  fits_passes prev (finite (pos s)) minus_infinity h = elim h [ ]
  fits_passes prev (finite (pos s)) (finite (negsuc n)) h = elim h [ ]
  fits_passes prev (finite (pos s)) (finite (pos e)) (lt, le, up) =
      let k = (keeps_up prev s).1 up in ground (arith, k, lt, le, difference_parts (pos e) (pos s))

  passes_fits :
      (prev : Option Float) (start end e : Float)
      → check_times second prev start end ≡ inr e
      → FitsTimes prev start end × (e ≡ end)
  unfolding check_times less at_most minus
  passes_fits prev nan end e h = (tt, ground (arith, h, nan_passes prev end))
  passes_fits prev minus_infinity end e h = cc
  passes_fits prev plus_infinity nan e h = (tt, ground (arith, h, infinite_keeps_up prev))
  passes_fits prev plus_infinity plus_infinity e h = cc
  passes_fits prev plus_infinity minus_infinity e h = cc
  passes_fits prev plus_infinity (finite end) e h = cc
  passes_fits prev (finite (negsuc n)) end e h =
      let never : 1 ≤ 0 = ground (arith, h) in elim never [ ]
  passes_fits prev (finite (pos s)) nan e h =
      let (to, from) = keeps_up prev s in (to (ground (arith, h)), ground (arith, h))
  passes_fits prev (finite (pos s)) plus_infinity e h =
      let never : 1 ≤ 0 = ground (arith, h) in elim never [ ]
  passes_fits prev (finite (pos s)) minus_infinity e h =
      let never : 1 ≤ 0 = ground (arith, h) in elim never [ ]
  passes_fits prev (finite (pos s)) (finite (negsuc n)) e h =
      let never : 1 ≤ 0 = ground (arith, h) in elim never [ ]
  passes_fits prev (finite (pos s)) (finite (pos t)) e h =
      let (to, from) = keeps_up prev s in
      let parts = difference_parts (pos t) (pos s) in
      (
        (ground (arith, h, parts), ground (arith, h, parts), to (ground (arith, h, parts))),
        ground (arith, h),
      )

  fits_segment :
      (prev : Option Float) (start end : Time)
      → FitsSegment prev start end
      → check_segment second prev start end ≡ inr (end_of end)
  unfolding check_segment
  fits_segment prev missing end h = elim h [ ]
  fits_segment prev unreadable end h = elim h [ ]
  fits_segment prev (at s) missing h = elim h [ ]
  fits_segment prev (at s) unreadable h = elim h [ ]
  fits_segment prev (at s) (at e) h = fits_passes prev s e h

  segment_fits :
      (prev : Option Float) (start end : Time) (e : Float)
      → check_segment second prev start end ≡ inr e
      → FitsSegment prev start end × (e ≡ end_of end)
  unfolding check_segment
  segment_fits prev missing end e h = cc
  segment_fits prev unreadable missing e h = cc
  segment_fits prev unreadable unreadable e h = cc
  segment_fits prev unreadable (at n) e h = cc
  segment_fits prev (at n) missing e h = cc
  segment_fits prev (at n) unreadable e h = cc
  segment_fits prev (at s) (at t) e h = passes_fits prev s t e h

  segment_cases :
      (prev : Option Float) (start end : Time)
      → (FitsSegment prev start end × (check_segment second prev start end ≡ inr (end_of end)))
        ⊎ ((FitsSegment prev start end → ⊥)
            × ((reason : Reason) × (check_segment second prev start end ≡ inl reason)))
  segment_cases prev start end = go (check_segment second prev start end) refl
    where
      go :
          (r : Reason ⊎ Float)
          → check_segment second prev start end ≡ r
          → (FitsSegment prev start end × (check_segment second prev start end ≡ inr (end_of end)))
            ⊎ ((FitsSegment prev start end → ⊥)
                × ((reason : Reason) × (check_segment second prev start end ≡ inl reason)))
      go (inl reason) same = inr (λ h. cc (fits_segment prev start end h), (reason, same))
      go (inr e) same =
          let (fits, it) = segment_fits prev start end e same in
          inl (fits, fits_segment prev start end fits)

  step_good :
      (prev : Option Float) (total e : Float) (s : Segment) (ss : List Segment)
      → check_segment second prev s.start s.end ≡ inr e
      → check_segments second prev total (s ∷ ss)
        ≡ check_segments second (some e) (larger total e) ss
  unfolding check_segments
  step_good prev total e s ss same = rw (same, check_segments) refl

  step_bad :
      (prev : Option Float) (total : Float) (reason : Reason) (s : Segment) (ss : List Segment)
      → check_segment second prev s.start s.end ≡ inl reason
      → check_segments second prev total (s ∷ ss) ≡ untimed reason
  unfolding check_segments
  step_bad prev total reason s ss same = rw (same, check_segments) refl

  segments_lem :
      (prev : Option Float) (total n : Float) (ss : List Segment)
      → (check_segments second prev total ss ≡ timed n)
        ↔ (WellTimed prev ss × (n ≡ latest total ss))
  unfolding check_segments latest
  segments_lem prev total n [] = (λ h. (tt, ground arith), λ h. ground arith)
  segments_lem prev total n (s ∷ ss) = elim (segment_cases prev s.start s.end) [
    | inl (fits, same) ↦
        let (to, from) = segments_lem (some (end_of s.end)) (larger total (end_of s.end)) n ss in
        let step = step_good prev total (end_of s.end) s ss same in
        (
          λ h. let (rest, it) = to (sym step ∙ h) in ((fits, rest), it),
          λ h. step ∙ from (h.0.1, h.1),
        )
    | inr (unfit, (reason, same)) ↦
        (λ h. cc (step_bad prev total reason s ss same), λ h. elim (unfit h.0.0) [ ])
  ]

  -- The latest end and the duration differ by at most a tenth of the duration, if there is one.
  abbrev pub DurationFits : ℕ → Float → Type 0
  DurationFits duration nan = Unit
  DurationFits duration plus_infinity = duration ≡ 0
  DurationFits duration minus_infinity = duration ≡ 0
  DurationFits duration (finite (negsuc n)) = duration ≡ 0
  DurationFits duration (finite (pos total)) =
      0 < duration
      → (10 * total ≤ 11 * (duration * second)) × (9 * (duration * second) ≤ 10 * total)

  duration_lem :
      (duration : ℕ) (total : Float)
      → (check_duration second duration (timed total) ≡ none) ↔ DurationFits duration total
  unfolding check_duration exceeds_tenth minus
  duration_lem duration nan = (λ h. tt, λ h. ground arith)
  duration_lem duration plus_infinity = (λ h. ground arith, λ h. ground arith)
  duration_lem duration minus_infinity = (λ h. ground arith, λ h. ground arith)
  duration_lem duration (finite (negsuc n)) =
      let parts = difference_parts (negsuc n) (pos (duration * second)) in
      (λ h. ground (arith, parts), λ h. ground (arith, parts))
  duration_lem duration (finite (pos n)) =
      let parts = difference_parts (pos n) (pos (duration * second)) in
      (λ h k. ground (arith, parts), λ h. ground (arith, h, parts))

  untimed_fails :
      (duration : ℕ) (reason : Reason) → check_duration second duration (untimed reason) ≡ none → ⊥
  unfolding check_duration
  untimed_fails duration reason h = cc

  -- A transcript passes exactly if it is empty, or if its segments are well timed and the latest of their ends is within a
  -- tenth of the duration, where that is above zero.
  pub validate_transcript_timing_lem :
      (ss : List Segment) (duration : ℕ)
      → (validate_transcript_timing second ss duration ≡ none)
        ↔ (WellTimed none ss × (0 < length ss → DurationFits duration (latest no_time ss)))
  unfolding validate_transcript_timing
  validate_transcript_timing_lem [] duration = (λ h. (tt, λ k. elim k [ ]), λ h. refl)
  validate_transcript_timing_lem (s ∷ ss) duration =
      go (check_segments second none no_time (s ∷ ss)) refl
    where
      go :
          (t : Timed)
          → check_segments second none no_time (s ∷ ss) ≡ t
          → (check_duration second duration (check_segments second none no_time (s ∷ ss)) ≡ none)
            ↔ (WellTimed none (s ∷ ss)
                × (0 < length (s ∷ ss) → DurationFits duration (latest no_time (s ∷ ss))))
      go (timed n) same =
          let (to, from) = segments_lem none no_time n (s ∷ ss) in
          let (well, it) = to same in
          let (fits, back) = duration_lem duration n in
          (
            λ h. (
              well,
              λ k.
                  subst (DurationFits duration) it
                    (fits (ap (check_duration second duration) (sym same) ∙ h)),
            ),
            λ h.
                ap (check_duration second duration) same
                ∙ back (subst (DurationFits duration) (sym it) (h.1 (omega arith))),
          )
      go (untimed reason) same = (
        λ h.
            elim (untimed_fails duration reason
              (ap (check_duration second duration) (sym same) ∙ h)) [ ],
        λ h.
            cc (same, (segments_lem none no_time (latest no_time (s ∷ ss)) (s ∷ ss)).1 (h.0, refl)),
      )
