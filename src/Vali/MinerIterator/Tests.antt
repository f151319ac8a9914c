-- ===== src/Vali/MinerIterator/Tests.antt =====
-- Runs of the iterator.
use custom_scraper.Prelude.{[], arith, refl, some, ◌∷◌, ◌≡◌}
use custom_scraper.Sorting.{sorted}
use custom_scraper.Vali.MinerIterator.{MinerIterator, init, peek}
use custom_scraper.Vali.MinerIterator.Laws.{seen, seen-length}

abbrev it : MinerIterator
it = record { miner_uids = 2 ∷ 5 ∷ 9 ∷ []; index = 1 }

init_sorts : init 4 (9 ∷ 2 ∷ 5 ∷ []) ≡ some it
unfolding init sorted
init_sorts = refl

seen-length_example : seen 3 it ≡ 5 ∷ 9 ∷ 2 ∷ []
seen-length_example = seen-length it (omega arith)

peeked : peek it ≡ some 5
unfolding peek
peeked = refl
