-- ===== src/Storage/Validator/Numbering.antt =====
-- The tables row by row: what storing and deleting leaves at a key, and the numbers of the labels.
use custom_scraper.Prelude.{
  Bool, Bool-cases, List, Option, Option-cases, String, [], ap, arith, false, if◌then◌else◌, inl,
  inr, nat_key, none, pair_key, refl, some, string_key, sym, true, ℕ, ◌&&◌, ◌+◌, ◌==◌, ◌∙◌, ◌∷◌,
  ◌≡◌, ◌≤◌,
}
use custom_scraper.Prelude.Dict.{Dict, lookup, lookup-insert, lookup-modify}
use custom_scraper.Storage.Labels.{AutoIncrementDict, get_or_insert}
use custom_scraper.Storage.Labels.Ids.{IsConsistent, kept, lookup-get_or_insert, taken}
use custom_scraper.Storage.Validator.{
  Claim, Miner, RowKey, delete_rows, insert_or_ignore, insert_rows, label_value_parse_str, max_id,
  number_labels, upsert_miner,
}
use mathlib.Core.Option

abbrev pub id_of : String → Dict String Miner → Option ℕ
id_of hotkey miners = Option.map (λ m. m.miner_id) (lookup hotkey miners)

pub lookup-delete_rows :
    (miner_id : ℕ) (k : RowKey) (rows : Dict RowKey ℕ)
    → lookup k (delete_rows miner_id rows) ≡ (if k.0 == miner_id then none else lookup k rows)
unfolding delete_rows lookup
lookup-delete_rows miner_id k [] = ground arith
lookup-delete_rows miner_id k ((j, n) ∷ rows) =
    ground (arith, pair_key.same_iff j k, lookup-delete_rows miner_id k rows)

abbrev pub or_else : Option ℕ → Option ℕ → Option ℕ
or_else none o = o
or_else (some n) o = some n

or_else-none : (o : Option ℕ) → or_else o none ≡ o
or_else-none none = refl
or_else-none (some n) = refl

lookup-insert_or_ignore :
    (j k : RowKey) (n : ℕ) (rows : Dict RowKey ℕ)
    → lookup k (insert_or_ignore j n rows)
      ≡ or_else (lookup k rows) (if pair_key.same j k then some n else none)
unfolding insert_or_ignore
lookup-insert_or_ignore j k n rows = elim (Option-cases (lookup j rows)) [
  | inl absent ↦ ground (arith, lookup-insert j k n rows, pair_key.same_iff j k)
  | inr (m, present) ↦ ground (arith, pair_key.same_iff j k)
]

or_else_assoc : (a b c : Option ℕ) → or_else (or_else a b) c ≡ or_else a (or_else b c)
or_else_assoc none b c = refl
or_else_assoc (some n) b c = refl

or_else_if :
    (b : Bool) (n : ℕ) (o : Option ℕ)
    → or_else (if b then some n else none) o ≡ (if b then some n else o)
or_else_if true n o = refl
or_else_if false n o = refl

-- A row that was there stays, and otherwise the first value counts.
pub lookup-insert_rows :
    (k : RowKey) (values : List (RowKey × ℕ)) (rows : Dict RowKey ℕ)
    → lookup k (insert_rows values rows) ≡ or_else (lookup k rows) (lookup k values)
unfolding insert_rows lookup
lookup-insert_rows k [] rows = sym (or_else-none (lookup k rows))
lookup-insert_rows k ((j, n) ∷ values) rows =
    lookup-insert_rows k values (insert_or_ignore j n rows)
    ∙ ap (λ o. or_else o (lookup k values)) (lookup-insert_or_ignore j k n rows)
    ∙ or_else_assoc (lookup k rows) _ (lookup k values)
    ∙ ap (or_else (lookup k rows)) (or_else_if (pair_key.same j k) n (lookup k values))

pub id-le-max_id :
    (hotkey : String) (i : ℕ) (miners : Dict String Miner)
    → id_of hotkey miners ≡ some i
    → i ≤ max_id miners
unfolding max_id lookup
id-le-max_id hotkey i [] h = ground arith
id-le-max_id hotkey i ((j, m) ∷ ms) h = ground (arith, id-le-max_id hotkey i ms)

pub id_of-upsert_miner :
    (now : ℕ) (hotkey h : String) (miners : Dict String Miner)
    → id_of h (upsert_miner now hotkey miners).1 ≡ (
        if string_key.same hotkey h
        then some (upsert_miner now hotkey miners).0
        else id_of h miners)
unfolding upsert_miner
id_of-upsert_miner now hotkey h miners = elim (Option-cases (lookup hotkey miners)) [
  | inl absent ↦ ground (
    arith,
    string_key.same_iff hotkey h,
    lookup-insert hotkey h (record { miner_id = max_id miners + 1; last_updated = now }) miners,
  )
  | inr (m, present) ↦ ground (
    arith,
    string_key.same_iff hotkey h,
    lookup-modify hotkey h (λ (r : Miner). record r { last_updated = now }) miners,
  )
]

-- What one dictionary of labels numbers, the other numbers the same.
abbrev pub Extends : AutoIncrementDict → AutoIncrementDict → Type 0
Extends d d' =
    (label : String) (i : ℕ) → lookup label d.indexes ≡ some i → lookup label d'.indexes ≡ some i

pub same_label :
    (d : AutoIncrementDict) (a b : String) (i : ℕ)
    → IsConsistent d
    → lookup a d.indexes ≡ some i
    → lookup b d.indexes ≡ some i
    → a ≡ b
same_label d a b i c h k = let p = c.named a i h in let q = c.named b i k in ground (arith, p, q)

-- The same label by its text and by its number.
pub label_test :
    (d : AutoIncrementDict) (a b : String) (i j : ℕ)
    → IsConsistent d
    → lookup a d.indexes ≡ some i
    → lookup b d.indexes ≡ some j
    → string_key.same a b ≡ (i == j)
label_test d a b i j c h k = elim (Bool-cases (i == j)) [
  | inl e ↦
      let eq : i ≡ j = ground arith in
      e' (string_key.same_iff a b).1 (same_label d a b i c h (k ∙ ap some (sym eq))) e
  | inr e ↦ ground (arith, string_key.same_iff a b)
]
  where
    e' :
        ((a ≡ b) → string_key.same a b ≡ true)
        → a ≡ b
        → (i == j) ≡ true
        → string_key.same a b ≡ (i == j)
    e' f p q = f p ∙ sym q

abbrev pub at_label : Option ℕ → (ℕ → Option ℕ) → Option ℕ
at_label none f = none
at_label (some i) f = f i

pub at_label-none : (o : Option ℕ) → at_label o (λ i. none) ≡ none
at_label-none none = refl
at_label-none (some i) = refl

module _ (casefold : String → String) (draw : AutoIncrementDict → ℕ) where
  -- The first size that is claimed for a source, a label as it is stored, and a time bucket.
  abbrev pub claimed : List Claim → ℕ → String → ℕ → Option ℕ
  claimed [] source label time_bucket_id = none
  claimed (c ∷ cs) source label time_bucket_id =
      let rest = claimed cs source label time_bucket_id in
      if c.source == source
        && (string_key.same (label_value_parse_str casefold draw c.label) label
            && (c.time_bucket_id == time_bucket_id))
      then some c.size
      else rest

  pub record Numbered (miner_id : ℕ) (cs : List Claim) (d : AutoIncrementDict)
      (out : List (RowKey × ℕ) × AutoIncrementDict) : Type 0 where
    pub consistent : IsConsistent out.1
    pub extends : Extends d out.1
    pub found :
        (source : ℕ) (label : String) (time_bucket_id : ℕ)
        → at_label
            (lookup label out.1.indexes)
            (λ i. lookup (miner_id, (source, (i, time_bucket_id))) out.0)
          ≡ claimed cs source label time_bucket_id
    pub other : (k : RowKey) → (k.0 == miner_id) ≡ false → lookup k out.0 ≡ none
    pub labelled :
        (k : RowKey) (n : ℕ)
        → lookup k out.0 ≡ some n
        → (label : String) × (lookup label out.1.indexes ≡ some k.1.1.0)

  pub number_labels-Numbered :
      (miner_id : ℕ) (cs : List Claim) (d : AutoIncrementDict)
      → IsConsistent d
      → Numbered miner_id cs d (number_labels casefold draw miner_id cs d)
  unfolding number_labels lookup
  number_labels-Numbered miner_id [] d c = record {
    consistent = c;
    extends = λ label i h. h;
    found = λ source label t. at_label-none (lookup label d.indexes);
    other = λ k h. refl;
    labelled = λ k n h. ground arith;
  }
  number_labels-Numbered miner_id (c ∷ cs) d ok =
      let label : String = label_value_parse_str casefold draw c.label in
      let (after, given) = taken d ok (draw d) label in
      let there = lookup-get_or_insert d ok (draw d) label in
      let lid : ℕ = (get_or_insert (draw d) label d).0 in
      let d1 : AutoIncrementDict = (get_or_insert (draw d) label d).1 in
      let ih = number_labels-Numbered miner_id cs d1 after in
      let numbered = ih.extends label lid there in
      record {
        consistent = ih.consistent;
        extends = λ l i h. ih.extends l i (kept d ok (draw d) label l i h);
        found = λ source l t.
            elim (Option-cases (lookup l (number_labels casefold draw miner_id cs d1).1.indexes)) [
              | inl absent ↦ ground (arith, string_key.same_iff label l, ih.found source l t)
              | inr (i, present) ↦ ground (
                arith,
                label_test (number_labels casefold draw miner_id cs d1).1 label l lid i
                    ih.consistent numbered present,
                ih.found source l t,
              )
            ];
        other = λ k h. ground (arith, ih.other k h);
        labelled = λ k n h.
            elim (Bool-cases (pair_key.same (miner_id, (c.source, (lid, c.time_bucket_id))) k)) [
              | inl e ↦ (
                label,
                ground (arith, pair_key.same_iff (miner_id, (c.source, (lid, c.time_bucket_id))) k),
              )
              | inr e ↦ ih.labelled k n (ground arith)
            ];
      }
