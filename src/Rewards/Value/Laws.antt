-- ===== src/Rewards/Value/Laws.antt =====
-- The age of data and its value.
use custom_scraper.Prelude.{
  All, Bool-cases, List, [], arith, false, inl, inr, none, refl, ℕ, ◌*◌, ◌-◌, ◌<◌, ◌∷◌, ◌≡◌, ◌≤◌,
}
use custom_scraper.Rewards.Jobs.{DataDesirabilityLookup, Job, Weight, find_for_source}
use custom_scraper.Rewards.Value.{
  ScorableDataEntityBucket, contribution, default_score, get_score_for_data_entity_bucket,
  is_bounded, no_score, plus, scale_factor_for_age, times, total_score,
}
use native.Mathlib.Nat.{mul-zero, zero-mul}

-- The scale of age does not fall from one bucket to a later one; it is at most the whole; it is at least
-- half of it up to the maximal age, and exactly half there; and it is 0 beyond.
pub scale_factor_for_age_lem :
    (max_age older newer current : ℕ)
    → older ≤ newer
    → (scale_factor_for_age max_age older current ≤ scale_factor_for_age max_age newer current)
      × (scale_factor_for_age max_age newer current ≤ 2 * max_age)
      × (current - newer ≤ max_age → max_age ≤ scale_factor_for_age max_age newer current)
      × (current - newer ≡ max_age → scale_factor_for_age max_age newer current ≡ max_age)
      × (max_age < current - newer → scale_factor_for_age max_age newer current ≡ 0)
unfolding scale_factor_for_age
scale_factor_for_age_lem max_age older newer current le = ground arith

times_nothing : (w : Weight) (a e : ℕ) → times w (a * (0 * e)) ≡ no_score
unfolding times
times_nothing w a e =
    let none_left : w.size * (a * (0 * e)) ≡ 0 = rw (zero-mul e, mul-zero a) (mul-zero w.size) in
    elim (Bool-cases w.negative) [
      | inl e' ↦ rw (times, e', none_left) refl
      | inr e' ↦ rw (times, e', none_left) refl
    ]

module _ (model : DataDesirabilityLookup) (b : ScorableDataEntityBucket) (current : ℕ) where
  total_score_old :
      (js : List Job)
      → model.max_age_in_hours < current - b.time_bucket_id
      → All (λ j. is_bounded j ≡ false) js
      → total_score model b current js ≡ no_score
  unfolding total_score contribution plus scale_factor_for_age
  total_score_old [] old h = refl
  total_score_old (j ∷ js) old h =
      let aged : scale_factor_for_age model.max_age_in_hours b.time_bucket_id current ≡ 0 =
        ground arith in
      rw (contribution, h.0, aged, times_nothing, total_score_old js old h.1) refl

-- Data beyond the maximal age is worth nothing, unless a job that matches it has a time bound.
pub get_score_old :
    (model : DataDesirabilityLookup) (b : ScorableDataEntityBucket) (current : ℕ)
    → model.max_age_in_hours < current - b.time_bucket_id
    → All (λ j. is_bounded j ≡ false) (find_for_source model b.source none b.label b.time_bucket_id)
    → get_score_for_data_entity_bucket model b current ≡ no_score
unfolding get_score_for_data_entity_bucket default_score scale_factor_for_age
get_score_old model b current old h =
    let aged : scale_factor_for_age model.max_age_in_hours b.time_bucket_id current ≡ 0 =
      ground arith in
    go (find_for_source model b.source none b.label b.time_bucket_id) h
      (rw (default_score, aged) (times_nothing _ _ _))
  where
    go :
        (js : List Job)
        → All (λ j. is_bounded j ≡ false) js
        → default_score model b current ≡ no_score
        → (elim js [
          | [] ↦ default_score model b current
          | j ∷ js' ↦ total_score model b current (j ∷ js')
        ])
          ≡ no_score
    go [] k base = base
    go (j ∷ js) k base = total_score_old model b current (j ∷ js) old k
