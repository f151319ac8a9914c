-- ===== src/Scraping/Coordinator/Laws.antt =====
-- When a scraper is due.
use custom_scraper.Prelude.{
  Bool, Bool-cases, String, [], arith, false, if◌then◌else◌, inl, inr, leb, member, none, refl,
  some, string_key, ℕ, ◌-◌, ◌∷◌, ◌≡◌,
}
use custom_scraper.Prelude.Dict.{Dict, IsKeyed, insert, lookup, lookup-insert}
use custom_scraper.Scraping.Coordinator.{
  Tracker, due, get_scraper_ids_ready_to_scrape, on_scrape_scheduled, ready_of,
}

ready_at : ℕ → String → Dict String ℕ → Dict String ℕ → Bool
ready_at now j last cadences = elim (lookup j cadences) [
  | none ↦ false
  | some cadence ↦ due last now j cadence
]

member-ready_of :
    (j : String) (last : Dict String ℕ) (now : ℕ) (cadences : Dict String ℕ)
    → IsKeyed cadences
    → member j (ready_of last now cadences) ≡ ready_at now j last cadences
unfolding ready_of ready_at lookup member
member-ready_of j last now [] h = refl
member-ready_of j last now ((i, c) ∷ cadences) (new, h) = elim (Bool-cases (string_key.same i j)) [
  | inl e ↦
      let same : i ≡ j = (string_key.same_iff i j).0 e in
      ground (arith, e, same, new, member-ready_of j last now cadences h)
  | inr e ↦ ground (arith, e, member-ready_of j last now cadences h)
]

-- In a tracker with no scraper twice: once a scraper is scheduled, it is due again when its cadence has passed since
-- and not before, and whether another scraper is due does not change.
pub get_scraper_ids_ready_to_scrape-on_scrape_scheduled :
    (t : Tracker) (i j : String) (now later cadence : ℕ)
    → IsKeyed t.cadences
    → lookup j t.cadences ≡ some cadence
    → member j (get_scraper_ids_ready_to_scrape (on_scrape_scheduled i now t) later) ≡ (
        if string_key.same i j
        then leb cadence (later - now)
        else member j (get_scraper_ids_ready_to_scrape t later))
unfolding get_scraper_ids_ready_to_scrape on_scrape_scheduled ready_at due
get_scraper_ids_ready_to_scrape-on_scrape_scheduled t i j now later cadence h e = ground (
  arith,
  member-ready_of j (insert i now t.last_scrapes) later t.cadences h,
  member-ready_of j t.last_scrapes later t.cadences h,
  lookup-insert i j now t.last_scrapes,
  e,
)
