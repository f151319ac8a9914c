-- ===== src/Vali/Samples/Unique.antt =====
-- When `are_entities_unique` accepts.
use custom_scraper.Prelude.{
  All, Bool, IsDistinct, List, String, [], arith, false, if◌then◌else◌, map, member, refl,
  string_key, true, ℕ, ◌&&◌, ◌↔◌, ◌∷◌, ◌≡◌,
}
use custom_scraper.Storage.Miner.{DataEntity}
use custom_scraper.Vali.Samples.{are_entities_unique, unique_from}

-- None of a list is among those that were seen, nor among those before it.
fresh : List String → List String → Bool
fresh seen [] = true
fresh seen (s ∷ ss) = let rest = fresh (s ∷ seen) ss in if member s seen then false else rest

All-member-cons :
    (s : String) (seen ss : List String)
    → All (λ t. member t (s ∷ seen) ≡ false) ss
      ↔ ((member s ss ≡ false) × All (λ t. member t seen ≡ false) ss)
unfolding member
All-member-cons s seen [] = (λ h. (refl, tt), λ h. tt)
All-member-cons s seen (t ∷ ts) =
    let (to, from) = All-member-cons s seen ts in
    (
      λ h. ground (arith, to, string_key.same_iff s t, string_key.same_iff t s),
      λ h. ground (arith, from, string_key.same_iff s t, string_key.same_iff t s),
    )

fresh_lem :
    (seen ss : List String)
    → (fresh seen ss ≡ true) ↔ (All (λ s. member s seen ≡ false) ss × IsDistinct ss)
unfolding fresh
fresh_lem seen [] = (λ h. (tt, tt), λ h. refl)
fresh_lem seen (s ∷ ss) =
    let (to, from) = fresh_lem (s ∷ seen) ss in
    let (split, join) = All-member-cons s seen ss in
    (λ h. ground (arith, to, split), λ h. ground (arith, from, join))

none_seen : (ss : List String) → All (λ s. member s [] ≡ false) ss
unfolding member
none_seen [] = tt
none_seen (s ∷ ss) = (refl, none_seen ss)

fresh_iff : (ss : List String) → (fresh [] ss ≡ true) ↔ IsDistinct ss
fresh_iff ss = (λ h. ((fresh_lem [] ss).0 h).1, λ h. (fresh_lem [] ss).1 (none_seen ss, h))

unique_from-fresh :
    (hash : List ℕ → String) (normalize : String → String) (hashes uris : List String)
    (es : List DataEntity)
    → unique_from hash normalize hashes uris es
      ≡ (fresh hashes (map (λ e. hash e.content) es) && fresh uris (map (λ e. normalize e.uri) es))
unfolding unique_from fresh
unique_from-fresh hash normalize hashes uris [] = refl
unique_from-fresh hash normalize hashes uris (e ∷ es) =
    ground (
      arith,
      unique_from-fresh hash normalize (hash e.content ∷ hashes) (normalize e.uri ∷ uris) es,
    )

-- The entities are accepted exactly if no two of them have contents of the same hash and no two of them have
-- the same address in normal form.
pub are_entities_unique_lem :
    (hash : List ℕ → String) (normalize : String → String) (es : List DataEntity)
    → (are_entities_unique hash normalize es ≡ true)
      ↔ (IsDistinct (map (λ e. hash e.content) es) × IsDistinct (map (λ e. normalize e.uri) es))
unfolding are_entities_unique
are_entities_unique_lem hash normalize es =
    let same = unique_from-fresh hash normalize [] [] es in
    let (to, from) = fresh_iff (map (λ e. hash e.content) es) in
    let (to', from') = fresh_iff (map (λ e. normalize e.uri) es) in
    (λ h. ground (arith, same, to, to'), λ h. ground (arith, same, from, from'))
