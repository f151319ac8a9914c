-- ===== src/Reddit/Checkpoints/Tests.antt =====
-- Runs of the checkpoint store.
use custom_scraper.Prelude.{String, [], none, refl, some, string_key, ℕ, ◌∷◌, ◌≡◌}
use custom_scraper.Reddit.Checkpoints.{Checkpoints, WorkerCheckpoint, list_all}

abbrev seen_at : String → ℕ → WorkerCheckpoint
seen_at worker t = record {
  worker_id = worker;
  account_id = some "a";
  last_subreddit = none;
  last_post_id = none;
  last_comment_id = none;
  updated_at = t;
}

abbrev table : Checkpoints
table = ("0", seen_at "0" 10) ∷ ("1", seen_at "1" 30) ∷ ("2", seen_at "2" 20) ∷ []

newest_first : list_all table ≡ seen_at "1" 30 ∷ seen_at "2" 20 ∷ seen_at "0" 10 ∷ []
unfolding list_all
newest_first = refl
