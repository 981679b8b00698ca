-- ===== src/MockStorage/Tests.antt =====
-- Objects that are numbers, with texts for metadata and contents.
use nedomi.Prelude.{ℕ, ◌≡◌, ◌≢◌, refl, String, none, some, ite, ℕ_discrete}
use nedomi.MockStorage.{Storage, save_part, get_part}
use nedomi.MockStorage.Laws.{get_part-save_part}

abbrev with_object : Storage ℕ String String
with_object = record {
  part_size = 4;
  objects = λ k. ite (ℕ_discrete k 1) (some "meta") none;
  parts = λ _. none;
}

known : with_object.objects 1 ≡ some "meta"
unfolding ℕ_discrete
known = refl

no_part : get_part ℕ_discrete with_object 1 2 ≡ none
unfolding get_part
no_part = refl

get_part-save_part_example :
    (s' : Storage ℕ String String) × (save_part ℕ_discrete with_object 1 2 "data" ≡ (s', none))
    × (get_part ℕ_discrete s' 1 2 ≡ some "data")
    × ((j : ℕ) → 2 ≢ j → get_part ℕ_discrete s' 1 j ≡ get_part ℕ_discrete with_object 1 j)
    × ((k : ℕ) (j : ℕ) → k ≢ 1 → get_part ℕ_discrete s' k j ≡ get_part ℕ_discrete with_object k j)
    × (s'.objects ≡ with_object.objects)
get_part-save_part_example =
    get_part-save_part ℕ_discrete with_object 1 2 "data" "meta" known no_part
