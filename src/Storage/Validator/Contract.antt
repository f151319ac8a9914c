-- ===== src/Storage/Validator/Contract.antt =====
-- The tables against the contract of storage/validator/validator_storage.py: a map from hotkeys to the last
-- index of the miner.
use custom_scraper.Prelude.{
  List, Option, String, [], arith, none, refl, some, string_key, ℕ, ◌∷◌, ◌≡◌,
}
use custom_scraper.Prelude.Dict.{Dict, insert, lookup, lookup-insert, lookup-remove, remove}
use custom_scraper.Storage.Labels.{AutoIncrementDict}
use custom_scraper.Storage.Validator.{
  Claim, CompressedMinerIndex, ValidatorStorage, claims, delete_miner, init,
  upsert_compressed_miner_index,
}
use custom_scraper.Storage.Validator.Held.{
  IsSound, delete-IsSound, held, held-delete, held-upsert, init-IsSound, upsert-IsSound,
}
use custom_scraper.Storage.Validator.Numbering.{claimed}

-- The calls that change the store.
pub data Op : Type 0 where
  upsert : ℕ → CompressedMinerIndex → String → Op
  delete : String → Op

module _ (casefold : String → String) (draw : AutoIncrementDict → ℕ) where
  unfoldable pub run : List Op → ValidatorStorage → ValidatorStorage
  run [] s = s
  run (upsert now index hotkey ∷ ops) s =
      run ops (upsert_compressed_miner_index casefold draw now index hotkey s)
  run (delete hotkey ∷ ops) s = run ops (delete_miner hotkey s)

  -- The contract: a map from hotkeys to what the last index claims.
  unfoldable pub run_spec : List Op → Dict String (List Claim) → Dict String (List Claim)
  run_spec [] d = d
  run_spec (upsert now index hotkey ∷ ops) d = run_spec ops (insert hotkey (claims index) d)
  run_spec (delete hotkey ∷ ops) d = run_spec ops (remove hotkey d)

  abbrev pub held_spec : Dict String (List Claim) → String → ℕ → String → ℕ → Option ℕ
  held_spec d hotkey source label t = elim (lookup hotkey d) [
    | none ↦ none
    | some cs ↦ claimed casefold draw cs source label t
  ]

  Agrees : ValidatorStorage → Dict String (List Claim) → Type 0
  Agrees s d =
      (hotkey : String) (source : ℕ) (label : String) (t : ℕ)
      → held s hotkey source label t ≡ held_spec d hotkey source label t

  run-Agrees :
      (ops : List Op) (s : ValidatorStorage) (d : Dict String (List Claim))
      → IsSound s
      → Agrees s d
      → Agrees (run ops s) (run_spec ops d)
  unfolding run run_spec Agrees
  run-Agrees [] s d v h = h
  run-Agrees (upsert now index hotkey ∷ ops) s d v h =
      run-Agrees ops (upsert_compressed_miner_index casefold draw now index hotkey s)
        (insert hotkey (claims index) d) (upsert-IsSound casefold draw now index hotkey s v)
        (λ j source label t. ground (
          arith,
          held-upsert casefold draw now index hotkey j s source label t v,
          lookup-insert hotkey j (claims index) d,
          h j source label t,
        ))
  run-Agrees (delete hotkey ∷ ops) s d v h =
      run-Agrees ops (delete_miner hotkey s) (remove hotkey d) (delete-IsSound hotkey s v)
        (λ j source label t. ground (
          arith,
          held-delete hotkey j s source label t v,
          lookup-remove hotkey j d,
          h j source label t,
        ))

-- After any calls, the tables hold of each miner what the last index that was stored for its hotkey claims first
-- for a source, label and time bucket, and nothing for a miner that was deleted since or never stored.
pub run_refines :
    (casefold : String → String) (draw : AutoIncrementDict → ℕ) (ops : List Op) (hotkey : String)
    (source : ℕ) (label : String) (t : ℕ)
    → held (run casefold draw ops init) hotkey source label t
      ≡ held_spec casefold draw (run_spec casefold draw ops []) hotkey source label t
unfolding Agrees init lookup
run_refines casefold draw ops =
    run-Agrees casefold draw ops init [] init-IsSound (λ hotkey source label t. refl)
