-- ===== src/Storage/Validator/Held.antt =====
-- What the tables hold of a miner, after storing and after deleting an index.
use custom_scraper.Prelude.{
  Bool-cases, List, Option, Option-cases, String, arith, false, if◌then◌else◌, inl, inr, nat_key,
  none, pair_key, some, string_key, ℕ, ◌+◌, ◌==◌, ◌∙◌, ◌≡◌, ◌≤◌,
}
use custom_scraper.Prelude.Dict.{Dict, lookup, lookup-remove, remove}
use custom_scraper.Storage.Labels.{AutoIncrementDict}
use custom_scraper.Storage.Labels.Ids.{IsConsistent, empty-IsConsistent}
use custom_scraper.Storage.Validator.{
  Claim, CompressedMinerIndex, Miner, RowKey, ValidatorStorage, claims, delete_miner, delete_rows,
  init, insert_rows, max_id, number_labels, upsert_compressed_miner_index, upsert_miner,
}
use custom_scraper.Storage.Validator.Numbering.{
  at_label, claimed, id-le-max_id, id_of, id_of-upsert_miner, lookup-delete_rows,
  lookup-insert_rows, number_labels-Numbered, same_label,
}

-- What the tables hold of a miner, for a source, a label as it is stored, and a time bucket.
abbrev pub held : ValidatorStorage → String → ℕ → String → ℕ → Option ℕ
held s hotkey source label time_bucket_id = at_label (id_of hotkey s.miners) (λ miner_id.
    at_label (lookup label s.label_dict.indexes)
      (λ i. lookup (miner_id, (source, (i, time_bucket_id))) s.rows))

-- No two miners have one id, and each row has a label that is numbered.
pub record IsSound (s : ValidatorStorage) : Type 0 where
  pub consistent : IsConsistent s.label_dict
  pub distinct :
      (a b : String) (i : ℕ) → id_of a s.miners ≡ some i → id_of b s.miners ≡ some i → a ≡ b
  pub labelled :
      (k : RowKey) (n : ℕ)
      → lookup k s.rows ≡ some n
      → (label : String) × (lookup label s.label_dict.indexes ≡ some k.1.1.0)

pub init-IsSound : IsSound init
unfolding init lookup
init-IsSound = record {
  consistent = empty-IsConsistent;
  distinct = λ a b i h k. ground arith;
  labelled = λ k n h. ground arith;
}

-- The id that a miner is given is no other miner's.
upsert_miner-fresh :
    (now : ℕ) (hotkey a : String) (miners : Dict String Miner)
    → ((a b : String) (i : ℕ) → id_of a miners ≡ some i → id_of b miners ≡ some i → a ≡ b)
    → id_of a miners ≡ some (upsert_miner now hotkey miners).0
    → a ≡ hotkey
unfolding upsert_miner
upsert_miner-fresh now hotkey a miners d h = elim (Option-cases (lookup hotkey miners)) [
  | inl absent ↦
      let id : id_of a miners ≡ some (max_id miners + 1) = ground arith in
      absurd_le (max_id miners) (id-le-max_id a (max_id miners + 1) miners id)
  | inr (m, present) ↦ d a hotkey m.miner_id (ground arith) (ground arith)
]
  where
    absurd_le : (n : ℕ) → n + 1 ≤ n → a ≡ hotkey
    absurd_le n le = elim (bad n le) [ ]
      where
        bad : (n : ℕ) → n + 1 ≤ n → ⊥
        bad n le = omega arith

upsert_miner-distinct :
    (now : ℕ) (hotkey a b : String) (i : ℕ) (miners : Dict String Miner)
    → ((a b : String) (i : ℕ) → id_of a miners ≡ some i → id_of b miners ≡ some i → a ≡ b)
    → id_of a (upsert_miner now hotkey miners).1 ≡ some i
    → id_of b (upsert_miner now hotkey miners).1 ≡ some i
    → a ≡ b
upsert_miner-distinct now hotkey a b i miners d h k = ground (
  arith,
  id_of-upsert_miner now hotkey a miners,
  id_of-upsert_miner now hotkey b miners,
  d a b i,
  upsert_miner-fresh now hotkey a miners d,
  upsert_miner-fresh now hotkey b miners d,
  string_key.same_iff hotkey a,
  string_key.same_iff hotkey b,
)

module _ (casefold : String → String) (draw : AutoIncrementDict → ℕ) where
  pub upsert-IsSound :
      (now : ℕ) (index : CompressedMinerIndex) (hotkey : String) (s : ValidatorStorage)
      → IsSound s
      → IsSound (upsert_compressed_miner_index casefold draw now index hotkey s)
  unfolding upsert_compressed_miner_index
  upsert-IsSound now index hotkey s v =
      let miner_id : ℕ = (upsert_miner now hotkey s.miners).0 in
      let n =
        number_labels-Numbered casefold draw miner_id (claims index) s.label_dict v.consistent in
      record {
        consistent = n.consistent;
        distinct = λ a b i h k. upsert_miner-distinct now hotkey a b i s.miners v.distinct h k;
        labelled = λ k m h. elim (Option-cases (lookup k (delete_rows miner_id s.rows))) [
          | inl gone ↦ n.labelled k m (
              ground (
                arith,
                lookup-insert_rows k
                    (number_labels casefold draw miner_id (claims index) s.label_dict).0
                    (delete_rows miner_id s.rows),
              ))
          | inr (size, left) ↦
              let old = v.labelled k size (ground (arith, lookup-delete_rows miner_id k s.rows)) in
              (old.0, n.extends old.0 k.1.1.0 old.1)
        ];
      }

  -- The rows of another miner, read by the new numbers of the labels.
  held_by_other :
      (miner_id j source t : ℕ) (label : String) (cs : List Claim) (s : ValidatorStorage)
      → IsSound s
      → (j == miner_id) ≡ false
      → at_label
          (lookup label (number_labels casefold draw miner_id cs s.label_dict).1.indexes)
          (λ i.
            lookup
              (j, (source, (i, t)))
              (insert_rows
                (number_labels casefold draw miner_id cs s.label_dict).0
                (delete_rows miner_id s.rows)))
        ≡ at_label (lookup label s.label_dict.indexes) (λ i. lookup (j, (source, (i, t))) s.rows)
  held_by_other miner_id j source t label cs s v apart =
      let out : List (RowKey × ℕ) × AutoIncrementDict =
        number_labels casefold draw miner_id cs s.label_dict in
      let n = number_labels-Numbered casefold draw miner_id cs s.label_dict v.consistent in
      let row : (i : ℕ)
          → lookup (j, (source, (i, t))) (insert_rows out.0 (delete_rows miner_id s.rows))
            ≡ lookup (j, (source, (i, t))) s.rows =
        λ i.
          lookup-insert_rows (j, (source, (i, t))) out.0 (delete_rows miner_id s.rows)
          ∙ ground (
            arith,
            lookup-delete_rows miner_id (j, (source, (i, t))) s.rows,
            n.other (j, (source, (i, t))) apart,
          ) in
      elim (Option-cases (lookup label s.label_dict.indexes)) [
        | inr (i, present) ↦ ground (arith, n.extends label i present, row i)
        | inl absent ↦ elim (Option-cases (lookup label out.1.indexes)) [
          | inl still ↦ ground arith
          | inr (i, numbered) ↦ elim (Option-cases (lookup (j, (source, (i, t))) s.rows)) [
            | inl nothing ↦ ground (arith, row i)
            | inr (size, there) ↦
                let (l, old) = v.labelled (j, (source, (i, t))) size there in
                let same = same_label out.1 l label i n.consistent (n.extends l i old) numbered in
                ground arith
          ]
        ]
      ]

  pub held-upsert :
      (now : ℕ) (index : CompressedMinerIndex) (hotkey h : String) (s : ValidatorStorage)
      (source : ℕ) (label : String) (t : ℕ)
      → IsSound s
      → held (upsert_compressed_miner_index casefold draw now index hotkey s) h source label t ≡ (
          if string_key.same hotkey h
          then claimed casefold draw (claims index) source label t
          else held s h source label t)
  unfolding upsert_compressed_miner_index
  held-upsert now index hotkey h s source label t v =
      let miner_id : ℕ = (upsert_miner now hotkey s.miners).0 in
      let out : List (RowKey × ℕ) × AutoIncrementDict =
        number_labels casefold draw miner_id (claims index) s.label_dict in
      let n =
        number_labels-Numbered casefold draw miner_id (claims index) s.label_dict v.consistent in
      let ids = id_of-upsert_miner now hotkey h s.miners in
      elim (Bool-cases (string_key.same hotkey h)) [
        | inl same ↦ elim (Option-cases (lookup label out.1.indexes)) [
          | inl absent ↦ ground (arith, ids, n.found source label t)
          | inr (i, present) ↦ ground (
            arith,
            ids,
            n.found source label t,
            lookup-insert_rows (miner_id, (source, (i, t))) out.0 (delete_rows miner_id s.rows),
            lookup-delete_rows miner_id (miner_id, (source, (i, t))) s.rows,
          )
        ]
        | inr differs ↦ elim (Option-cases (id_of h s.miners)) [
          | inl unknown ↦ ground (arith, ids)
          | inr (j, known) ↦
              let apart : (j == miner_id) ≡ false = ground (
                arith,
                upsert_miner-fresh now hotkey h s.miners v.distinct,
                string_key.same_iff hotkey h,
              ) in
              ground (arith, ids, held_by_other miner_id j source t label (claims index) s v apart)
        ]
      ]

id_of-remove :
    (hotkey h : String) (miners : Dict String Miner)
    → id_of h (remove hotkey miners) ≡ (if string_key.same hotkey h then none else id_of h miners)
id_of-remove hotkey h miners = ground (arith, lookup-remove hotkey h miners)

pub delete-IsSound :
    (hotkey : String) (s : ValidatorStorage) → IsSound s → IsSound (delete_miner hotkey s)
unfolding delete_miner
delete-IsSound hotkey s v = record {
  consistent = v.consistent;
  distinct = λ a b i h k.
      ground
        (arith, id_of-remove hotkey a s.miners, id_of-remove hotkey b s.miners, v.distinct a b i);
  labelled = λ k n h. elim (Option-cases (lookup hotkey s.miners)) [
    | inl unknown ↦ v.labelled k n (ground arith)
    | inr (m, known) ↦ v.labelled k n (ground (arith, lookup-delete_rows m.miner_id k s.rows))
  ];
}

pub held-delete :
    (hotkey h : String) (s : ValidatorStorage) (source : ℕ) (label : String) (t : ℕ)
    → IsSound s
    → held (delete_miner hotkey s) h source label t
      ≡ (if string_key.same hotkey h then none else held s h source label t)
unfolding delete_miner
held-delete hotkey h s source label t v =
    let ids = id_of-remove hotkey h s.miners in
    elim (Bool-cases (string_key.same hotkey h)) [
      | inl same ↦ ground (arith, ids)
      | inr differs ↦ elim (Option-cases (id_of h s.miners)) [
        | inl unknown ↦ ground (arith, ids)
        | inr (j, known) ↦ elim (Option-cases (lookup hotkey s.miners)) [
          | inl absent ↦ ground (arith, ids)
          | inr (m, present) ↦
              let apart : (j == m.miner_id) ≡ false =
                ground (arith, v.distinct hotkey h j, string_key.same_iff hotkey h) in
              elim (Option-cases (lookup label s.label_dict.indexes)) [
                | inl unnumbered ↦ ground (arith, ids)
                | inr (i, numbered) ↦
                    ground (arith, ids, lookup-delete_rows m.miner_id (j, (source, (i, t))) s.rows)
              ]
        ]
      ]
    ]
