-- ===== src/Desirability/Tests.antt =====
-- A default job and two votes for it.
use custom_scraper.Desirability.{
  FinalJob, Submission, SubmittedJob, aggregate, calculate_total_weights, jobs_format,
  label_weights_format, one, zero_stake,
}
use custom_scraper.Desirability.Total.{HasNoStake, calculate_total_weights_lem}
use custom_scraper.Prelude.{
  All, IsDistinct, List, Option, String, [], false, map, none, option_key, pair_key, refl, some,
  string_key, ℕ, ◌∷◌, ◌≡◌, ◌⊎◌,
}
use custom_scraper.Ratio.{exceeds, over}

abbrev wanted : Option (Option String) → ℕ → SubmittedJob
wanted id weight = record {
  id = id;
  params = some (none, ("reddit", (some "r/bittensor", (none, none))));
  weight = some (record { gained = weight; lost = 0; unit = 1 });
}

abbrev plain_name : String → ℕ → String
plain_name name n = name

abbrev same_label : String → String
same_label label = label

abbrev votes : List (ℕ × Submission)
votes =
    (3, jobs_format (wanted (some (some "mine")) 1 ∷ []))
    ∷ (
      1,
      label_weights_format (("x", ("#tao", record { gained = 1; lost = 0; unit = 2 }) ∷ []) ∷ []),
    )
    ∷ []

calculate_total_weights_lem_example :
    (HasNoStake same_label plain_name votes
      × (calculate_total_weights same_label plain_name
            (over 7 3)
            one
            (jobs_format (wanted none 2 ∷ []))
            votes
          ≡ zero_stake))
    ⊎ (¬ HasNoStake same_label plain_name votes
        × ((jobs : List FinalJob) × (calculate_total_weights same_label plain_name
                (over 7 3)
                one
                (jobs_format (wanted none 2 ∷ []))
                votes
              ≡ aggregate jobs)
            × IsDistinct (map (λ j. j.final_key) jobs)
            × All (λ j. exceeds one j.final_weight ≡ false) jobs))
calculate_total_weights_lem_example =
    calculate_total_weights_lem same_label plain_name (over 7 3) one
      (jobs_format (wanted none 2 ∷ [])) votes

-- One vote of a validator without stake.
no_stake :
    calculate_total_weights same_label plain_name
      (over 7 3)
      one
      (jobs_format (wanted none 2 ∷ []))
      ((0, jobs_format []) ∷ [])
    ≡ zero_stake
unfolding calculate_total_weights
no_stake = refl
