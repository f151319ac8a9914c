-- ===== src/Vali/Evaluator/Update.antt =====
-- The update as a whole.
use custom_scraper.Common.Metagraph.{Metagraph, get_miner_uids}
use custom_scraper.Prelude.{
  Bool-cases, List, String, ap, arith, get_elem?, get_elem?-append, get_elem?_lt, if◌then◌else◌,
  inl, inr, leb, length, ltb, ltb→le, nat_key, none, pair_key, refl, replicate, some, string_key,
  true, ℕ, ◌++◌, ◌-◌, ◌<◌, ◌∙◌, ◌≡◌, ◌≢◌, ◌≤◌,
}
use custom_scraper.Prelude.Dict.{lookup}
use custom_scraper.Ratio.{no_amount}
use custom_scraper.Rewards.Scorer.{MinerScorer, grow, starting_credibility}
use custom_scraper.Rewards.Scorer.Calls.{grow-IsAligned, resize-grow}
use custom_scraper.Rewards.Scorer.Safety.{IsAligned}
use custom_scraper.Sorting.{bisect_left, sorted}
use custom_scraper.Storage.Validator.{Miner, RowKey}
use custom_scraper.Vali.Evaluator.{MinerEvaluator, conclude, finished, on_metagraph_updated, settle}
use custom_scraper.Vali.Evaluator.Loop.{sweep_lem}
use custom_scraper.Vali.Evaluator.Sweep.{hotkey_replaced, uid_replaced}
use custom_scraper.Vali.MinerIterator.{MinerIterator, set_miner_uids}
use mathlib.Core.Path.{subst}

set_miner_uids_total :
    (uids : List ℕ) (it : MinerIterator)
    → it.index < length it.miner_uids
    → (it' : MinerIterator) × (set_miner_uids uids it ≡ some it') × (it'.miner_uids ≡ sorted uids)
unfolding set_miner_uids
set_miner_uids_total uids it inside =
    let (u, e) = get_elem?_lt it.miner_uids it.index inside in
    (
      record {
        miner_uids = sorted uids;
        index =
            if leb (length (sorted uids)) (bisect_left (sorted uids) u)
            then 0
            else bisect_left (sorted uids) u;
      },
      rw (set_miner_uids, e) refl,
      refl,
    )

grown_elem :
    {A : Type 0} (xs : List A) (v : A) (n m j : ℕ)
    → length xs ≡ n
    → j < n
    → get_elem? (xs ++ replicate m v) j ≡ get_elem? xs j
grown_elem xs v n m j e inside = get_elem?-append xs (replicate m v) j (omega (arith, e, inside))

settle_lem :
    (metagraph : Metagraph) (e : MinerEvaluator)
    → IsAligned (length e.metagraph) e.scorer
    → length e.metagraph ≤ length metagraph
    → (s : MinerScorer) × (settle metagraph e
        ≡ finished (record e { scorer = s; metagraph = metagraph }))
      × IsAligned (length metagraph) s
      × ((j : ℕ)
          → j < length e.metagraph
          → (get_elem? s.miner_credibility j ≡ get_elem? e.scorer.miner_credibility j)
            × (get_elem? s.scores j ≡ get_elem? e.scorer.scores j))
unfolding settle grow
settle_lem metagraph e h le =
    let n = length e.metagraph in
    let m = length metagraph in
    let k = m - length e.scorer.scores in
    elim (Bool-cases (ltb n m)) [
      | inl more ↦ (
        grow k e.scorer,
        rw (more, resize-grow n m e.scorer le h) refl,
        grow-IsAligned n m e.scorer le h,
        λ j lt. (
          grown_elem e.scorer.miner_credibility starting_credibility n k j h.of_credibility lt,
          grown_elem e.scorer.scores no_amount n k j h.of_scores lt,
        ),
      )
      | inr same ↦ (
        e.scorer,
        rw same refl,
        subst (λ k. IsAligned k e.scorer) (omega (arith, ltb→le n m same, le)) h,
        λ j lt. (refl, refl),
      )
    ]

-- With every list of the scorer as long as the old metagraph, a new metagraph that is not shorter and an iterator whose
-- position is inside, the update ends: the new metagraph stands, every list has its size, and the iterator has its
-- miners; the score and the credibility of an old uid that has a new hotkey start again, those of the others
-- stay; of the stored miners just those whose hotkey lost a uid are gone, and of the rows of their indexes just those
-- with the id of such a miner.
pub on_metagraph_updated_lem :
    (metagraph : Metagraph) (e : MinerEvaluator)
    → IsAligned (length e.metagraph) e.scorer
    → length e.metagraph ≤ length metagraph
    → e.miner_iterator.index < length e.miner_iterator.miner_uids
    → (e' : MinerEvaluator) × (on_metagraph_updated metagraph e ≡ finished e')
      × (e'.metagraph ≡ metagraph)
      × (e'.miner_iterator.miner_uids ≡ sorted (get_miner_uids metagraph e.vpermit_rao_limit))
      × IsAligned (length metagraph) e'.scorer
      × ((j : ℕ)
          → j < length e.metagraph
          → (get_elem? e'.scorer.miner_credibility j ≡ (
              if uid_replaced j 0 e.metagraph metagraph
              then some starting_credibility
              else get_elem? e.scorer.miner_credibility j))
            × (get_elem? e'.scorer.scores j ≡ (
                if uid_replaced j 0 e.metagraph metagraph
                then some no_amount
                else get_elem? e.scorer.scores j)))
      × ((h : String)
          → lookup h e'.storage.miners ≡ (
              if hotkey_replaced h 0 e.metagraph metagraph
              then none
              else lookup h e.storage.miners))
      × ((h : String) (m : Miner) (k : RowKey)
          → lookup h e.storage.miners ≡ some m
          → hotkey_replaced h 0 e.metagraph metagraph ≡ true
          → k.0 ≡ m.miner_id
          → lookup k e'.storage.rows ≡ none)
      × ((k : RowKey)
          → ((h : String) (m : Miner)
              → lookup h e.storage.miners ≡ some m
              → hotkey_replaced h 0 e.metagraph metagraph ≡ true
              → k.0 ≢ m.miner_id)
          → lookup k e'.storage.rows ≡ lookup k e.storage.rows)
unfolding on_metagraph_updated conclude
on_metagraph_updated_lem metagraph e h le inside =
    let (s, d, swept, w) =
      sweep_lem (length e.metagraph) 0 e.metagraph metagraph e.vpermit_rao_limit e.scorer e.storage
        h (omega arith) le in
    let (it, set, uids) =
      set_miner_uids_total (get_miner_uids metagraph e.vpermit_rao_limit) e.miner_iterator inside in
    let (s', settled, aligned, elems) =
      settle_lem metagraph (record e { scorer = s; storage = d; miner_iterator = it }) w.aligned
        le in
    (
      record e { scorer = s'; storage = d; miner_iterator = it; metagraph = metagraph },
      ap (conclude metagraph e) swept ∙ rw (conclude, set) settled,
      refl,
      uids,
      aligned,
      λ j lt. ((elems j lt).0 ∙ w.credibilities j lt, (elems j lt).1 ∙ w.scored j lt),
      w.kept_miners,
      w.deleted_rows,
      w.kept_rows,
    )
