-- ===== src/Lib.antt =====
-- CustomScraper: miners that scrape social data and the validators that score them, in Python.
--
-- The program. A miner runs scrapers and stores what they return; a validator asks miners for an index
-- of what they hold, checks samples of it and keeps a score for each miner. The Reddit scrapers
-- of the miner share a pool of accounts: an orchestrator starts workers, a worker takes a job that is
-- ready, leases an account, scrapes, and writes the outcome to the pool, to the job state and
-- to its checkpoint. The validator keeps the indexes in tables, evaluates the miners in turn and keeps
-- their credibilities; when the chain has a new metagraph, its listener sweeps all three.
--
-- The parts, with the files that model them:
--   Reddit/ProxyPool     ProxyPool of scraping/reddit/session_pool.py: rotation and failure counts.
--   Reddit/Account       the rows of the table `accounts` in the same file, with the choice of the
--                        ready account with the fewest failures.
--   Reddit/AccountPool   AccountPool of the same file over its tables: enrolment, acquire, release,
--                        cooldown, quarantine, health report, and the arguments of the HTTP client.
--   Reddit/Checkpoints   scraping/reddit/worker_checkpoint_store.py.
--   Reddit/Worker        worker_task of scraping/reddit/worker_orchestrator.py from the lease on, with the
--                        helpers on jobs, errors and ids. It uses the pool and the checkpoints.
--   Reddit/Orchestrator  orchestrate of the same file: the registry of workers over the rounds.
--   Reddit/JobQueue      scraping/reddit/job_queue.py, with its weighted draw.
--   Reddit/RateLimiter   SqliteTokenBucketLimiter of scraping/reddit/rate_limiter.py.
--   Reddit/Planner       scraping/reddit/options.py and scraping/reddit/planner.py.
--   Sorting              `sorted` and `bisect_left` on numbers.
--   Vali/MinerIterator   vali_utils/miner_iterator.py: the order in which a validator visits the miners.
--   Vali/ValidatorRegistry
--                        vali_utils/load_balancer/validator_registry.py: which validator a request goes to.
--   Vali/Samples         the choice and the checks of samples of vali_utils/utils.py.
--   Rewards/Value        rewards/data_value_calculator.py, which uses Rewards/Jobs: the score of a bucket.
--   Vali/Evaluator       vali_utils/miner_evaluator.py: what a new metagraph does to the scorer, the storage and
--                        the iterator, and (Vali/Evaluator/Eval) the evaluation of a miner, with
--                        storage/validator/s3_validator_storage.py.
--   Common/Metagraph, Common/LruSet, Common/Burn, Common/Retry
--                        the helpers of common/utils.py.
--   Common/MetagraphSyncer
--                        common/metagraph_syncer.py: who is told of a new metagraph.
--   Rewards/Scorer       rewards/miner_scorer.py, which uses Rewards/Value: the scores and credibilities.
--   Ratio                the exact fractions that stand for its floats.
--   Rewards/Jobs         Job, JobMatcher and the primitive look-ups of rewards/data.py.
--   Content, Content/Counts
--                        what the checks of content share: scraping/scraper.py, scraping/utils.py and
--                        common/data.py, and the counts of scraping/x and scraping/youtube.
--   Content/Reddit       scraping/reddit/model.py and utils.py, and the validation of one entity in
--                        scraping/reddit/reddit_custom_scraper.py.
--   Content/X            scraping/x/model.py and utils.py.
--   Content/Youtube      scraping/youtube/model.py and utils.py.
--   Desirability         calculate_total_weights of dynamic_desirability/desirability_retrieval.py.
--   Scraping/Coordinator scraping/coordinator.py: when a scraper is due, and what it scrapes.
--   Storage/Labels       AutoIncrementDict of storage/validator/sqlite_memory_validator_storage.py.
--   Storage/Validator    the tables of the same file: the indexes of the miners, with the reading of one
--                        (Storage/Validator/Read) and the map of claims that the tables stand for
--                        (Storage/Validator/Contract).
--   Storage/Miner        storage/miner/sqlite_miner_storage.py: storing, clearing, listing one bucket.
--   Prelude              Boolean tests, keys with a decidable equality, lists, and association lists (Dict)
--                        that stand for Python dictionaries and for tables with a primary key.
--
-- How the code is read. A method is a function from the state to its result and the new state. A
-- method that holds a lock or runs in one transaction is one step; what other tasks do between two
-- steps of a method is an argument. The clock, the random draws and the results of calls into
-- third-party packages are arguments too. Times, weights and sizes are natural numbers in a
-- fixed unit that the file names; a fraction of the source is counted in a finer unit, and the scores,
-- credibilities and shares are exact fractions where the source has floats; the times of a
-- transcript are floats with NaN and the infinities (Prelude/Float). Every loop
-- is structural recursion; the loop of SqliteTokenBucketLimiter.acquire recurses on the list of
-- the rounds that it makes, and returns nothing where that list is too short.
--
-- Not modelled: files, sockets, logging, sleeping, signals, the parsing of dates and of JSON, the
-- clients of Reddit, X, YouTube, Apify, S3 and of the chain, the API server and its monitoring.
pub mod Common
pub mod Content
pub mod Desirability
pub mod Prelude
pub mod Ratio
pub mod Reddit
pub mod Rewards
pub mod Scraping
pub mod Sorting
pub mod Storage
pub mod Vali
