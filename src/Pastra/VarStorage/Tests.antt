-- ===== src/Pastra/VarStorage/Tests.antt =====
-- A store with a record of two entries at concrete inputs.
use whais.Prelude.{ℕ, ◌≡◌, refl, List, [], ◌∷◌, replicate, take, true, false, arith}
use whais.Pastra.VarStorage.{VariableSizeStore, done, get_record}
use whais.Pastra.VarStorage.Allocate.{update_record}
use whais.Pastra.VarStorage.Records.{IsChain, record_bytes, IsPart, get_record_lem}
use whais.Pastra.VarStorage.Chains.{IsApart, IsDistinct}
use whais.Pastra.VarStorage.CopyIn.{Updated}
use whais.Pastra.VarStorage.Update.{update_record_lem}
use whais.Pastra.VarStorage.Items.{store_items, retrieve_items, retrieve-store_items}
use whais.Pastra.Container.{Container, Outcome, and_then, size}
use whais.Pastra.Container as Pages
use whais.Pastra.Container.Invariant.{IsValid}

-- Entry 2 is the first one of the record, entry 1 the last one.
abbrev store : VariableSizeStore
store = record {
  entries =
      record { prev_word = 0; next_word = 0x8fff_ffff_ffff_ffff; raw_data = replicate 48 0 }
      ∷ record { prev_word = 2; next_word = 0x0fff_ffff_ffff_ffff; raw_data = replicate 48 1 }
      ∷ record { prev_word = 1; next_word = 0x4000_0000_0000_0001; raw_data = replicate 48 2 }
      ∷ [];
  first_free_entry = 0x0fff_ffff_ffff_ffff;
}

store-IsChain : IsChain store 2 (2 ∷ 1 ∷ [])
unfolding IsChain
store-IsChain =
    (refl, (λ e. absurd (omega arith)), refl, (refl, (λ e. absurd (omega arith)), refl, refl))

get_record_lem_example :
    (got : List ℕ) × (get_record 60 store 2 40 50 ≡ done got)
    × IsPart (record_bytes store (2 ∷ 1 ∷ [])) 40 50 got
get_record_lem_example =
    get_record_lem 60 store 2 (2 ∷ 1 ∷ []) 40 50 store-IsChain (omega arith) (omega arith)
      (omega arith) (omega arith)

abbrev news : List ℕ
news = replicate 30 7

update_record_lem_example :
    (s' : VariableSizeStore) × (update_record 60 store 2 60 news ≡ done s')
    × Updated store 2 (2 ∷ 1 ∷ []) 60 news s'
unfolding IsDistinct IsApart
update_record_lem_example =
    update_record_lem 60 store 2 (2 ∷ 1 ∷ []) 60 news store-IsChain
      (((λ e. absurd (omega arith)), tt), (tt, tt)) (omega arith) (omega arith) (omega arith)
      (omega arith) (omega arith) (omega arith)

abbrev empty_container : Container
empty_container = record {
  max_file_size = 100;
  units = [];
  ignore_existing = false;
  to_remove = false;
  leftover = λ k. false;
  removable = λ k. true;
}

empty_container-IsValid : IsValid empty_container
empty_container-IsValid = record {
  filled = record {
    max_pos = omega arith;
    max_word = omega arith;
    full = λ k h. absurd (omega arith);
    small = λ k h. absurd (omega arith);
  };
  addressable = omega arith;
}

abbrev item : List ℕ
item = replicate 64 9

retrieve-store_items_example :
    (c' : Container) × (and_then
        (store_items 1 0 1 item empty_container)
        (λ _ c1. retrieve_items 1 0 1 c1)
      ≡ Pages.done (take 64 item) c')
retrieve-store_items_example =
    retrieve-store_items 1 0 1 item empty_container empty_container-IsValid (λ k h. refl)
      (omega arith) (omega arith) (omega arith) (omega arith) (omega arith)
