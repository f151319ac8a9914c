-- ===== src/Reddit/Checkpoints.antt =====
-- scraping/reddit/worker_checkpoint_store.py: what each worker handled last.
pub mod Laws
mod Tests
use custom_scraper.Prelude.{List, Option, String, [], if◌then◌else◌, ltb, string_key, ℕ, ◌∷◌}
use custom_scraper.Prelude.Dict.{Dict, insert, lookup}
use mathlib.Core.Option

pub record WorkerCheckpoint : Type 0 where
  pub worker_id : String
  pub account_id : Option String
  pub last_subreddit : Option String
  pub last_post_id : Option String
  pub last_comment_id : Option String
  pub updated_at : ℕ

-- The table `checkpoints`, by its primary key `worker_id`.
abbrev pub Checkpoints : Type 0
Checkpoints = Dict String WorkerCheckpoint

-- `upsert`; `now` is the clock, for a call with no `updated_at`.
unfoldable pub upsert :
    ℕ
    → String
    → Option String
    → Option String
    → Option String
    → Option String
    → Option ℕ
    → Checkpoints
    → Checkpoints
upsert now worker_id account_id last_subreddit last_post_id last_comment_id updated_at table =
    insert worker_id
      (record {
        worker_id = worker_id;
        account_id = account_id;
        last_subreddit = last_subreddit;
        last_post_id = last_post_id;
        last_comment_id = last_comment_id;
        updated_at = Option.get_or updated_at now;
      })
      table

-- `get`
unfoldable pub get : String → Checkpoints → Option WorkerCheckpoint
get worker_id table = lookup worker_id table

-- `ORDER BY updated_at DESC`: a row goes before the first that is not newer.
unfoldable pub place : WorkerCheckpoint → List WorkerCheckpoint → List WorkerCheckpoint
place row [] = row ∷ []
place row (r ∷ rows) =
    let rest = place row rows in
    if ltb row.updated_at r.updated_at then r ∷ rest else row ∷ r ∷ rows

-- `list_all`
unfoldable pub list_all : Checkpoints → List WorkerCheckpoint
unfolding place
list_all [] = []
list_all ((_, row) ∷ table) = place row (list_all table)
