-- ===== src/Disk/Saved.antt =====
-- A part that is saved is read back and listed.
use nedomi.Prelude.{
  ℕ, ◌≤◌, ◌≡◌, refl, ap, sym, ◌∙◌, Bool, true, false, none, some, List, [], arith, inl, inr, length,
  get_or, not, ltb, drop,
}
use nedomi.Ranges.Strings.{Text}
use nedomi.Respond.{Stream}
use nedomi.Disk.Names.{get_part_filename}
use nedomi.Disk.Files.{DirPath, Fs, find, erase, next_fault, create_file, write, close, rename}
use nedomi.Disk.Laws.{find-put_same}
use nedomi.Disk.Atomic.{temporary, write-copied, close-files, rename-cases}
use nedomi.Disk.{Disk, ObjectId, get_object_id_path, save_part, get_part}

module _ {B : Type 0} (fs : Fs B) (d : DirPath) (n : Text) (clean : fs.faults ≡ []) where
  create_file-clean :
      find d n fs.files ≡ none
      → ((create_file fs d n).1 ≡ true) × ((create_file fs d n).0.faults ≡ [])
  unfolding create_file next_fault
  create_file-clean fresh =
      let a : get_or fs.faults 0 none ≡ none = ap (λ l. get_or l 0 none) clean in
      let b : get_or (drop 1 fs.faults) 0 none ≡ none = ap (λ l. get_or (drop 1 l) 0 none) clean in
      let c : drop 1 (drop 1 fs.faults) ≡ [] = ap (λ l. drop 1 (drop 1 l)) clean in
      (rw (a, b, fresh, create_file) refl, rw (a, b, fresh, create_file) c)

  write-clean :
      (s : Stream B) → ((write fs d n s).2 ≡ not s.fails) × ((write fs d n s).0.faults ≡ [])
  unfolding write next_fault
  write-clean s =
      let a : get_or fs.faults 0 none ≡ none = ap (λ l. get_or l 0 none) clean in
      let c : drop 1 fs.faults ≡ [] = ap (λ l. drop 1 l) clean in
      (rw (a, write) refl, rw (a, write) c)

  close-clean : ((close fs).1 ≡ true) × ((close fs).0.faults ≡ [])
  unfolding close next_fault
  close-clean =
      let a : get_or fs.faults 0 none ≡ none = ap (λ l. get_or l 0 none) clean in
      (rw (a, close) refl, ap (λ l. drop 1 l) clean)

  rename-clean :
      (new : Text) (c : List B)
      → find d n fs.files ≡ some c
      → ((rename fs d n new).1 ≡ true) × ((rename fs d n new).0.faults ≡ [])
  unfolding rename next_fault
  rename-clean new c f =
      let a : get_or fs.faults 0 none ≡ none = ap (λ l. get_or l 0 none) clean in
      let t : drop 1 fs.faults ≡ [] = ap (λ l. drop 1 l) clean in
      (rw (a, f, rename) refl, rw (a, f, rename) t)

-- A part is saved by its last call, the rename.
record IsRenamed {B : Type 0} (s : Disk) (id : ObjectId) (part : ℕ) (content : List B)
    (r : Fs B × Bool) : Type 0 where
  ok : r.1 ≡ true
  no_faults : r.0.faults ≡ []
  found : find (get_object_id_path s id) (get_part_filename part) r.0.files ≡ some content

save_part-IsRenamed :
    {B : Type 0} (s : Disk) (fs : Fs B) (id : ObjectId) (part : ℕ) (suffix : Text)
    (reader : Stream B)
    → fs.faults ≡ []
    → find (get_object_id_path s id) (temporary part suffix) fs.files ≡ none
    → reader.fails ≡ false
    → length reader.content ≤ s.part_size
    → IsRenamed s id part reader.content (save_part s fs id part suffix reader)
unfolding save_part
save_part-IsRenamed s fs id part suffix reader clean fresh reads fits =
    let d = get_object_id_path s id in
    let tmp = temporary part suffix in
    let name = get_part_filename part in
    let c = create_file fs d tmp in
    let w = write c.0 d tmp reader in
    let k = close w.0 in
    let created = create_file-clean fs d tmp clean fresh in
    let written = write-clean c.0 d tmp created.1 reader in
    let closed = close-clean w.0 d tmp written.1 in
    let copied : w.2 ≡ true = written.0 ∙ ap not reads in
    let facts = write-copied c.0 d tmp reader copied in
    let there : find d tmp k.0.files ≡ some reader.content =
      ap (find d tmp) (close-files w.0 d tmp) ∙ facts.0 in
    let room : ltb s.part_size w.1 ≡ false = ground (arith, facts.1) in
    let moved = rename-clean k.0 d tmp closed.1 name reader.content there in
    rw (created.0, copied, room, closed.0)
      (elim (rename-cases k.0 d tmp name) [
        | inl v ↦ absurd (cc (v.0, moved.0))
        | inr (content, f, ok, v) ↦ record {
          ok = ok;
          no_faults = moved.1;
          found =
              ap (find d name) v
              ∙ find-put_same d name content (erase d tmp k.0.files)
              ∙ sym f
              ∙ there;
        }
      ])

get_part-found :
    {B : Type 0} (s : Disk) (fs : Fs B) (id : ObjectId) (part : ℕ)
    → fs.faults ≡ []
    → (get_part s fs id part).1 ≡ find (get_object_id_path s id) (get_part_filename part) fs.files
unfolding get_part next_fault
get_part-found s fs id part clean =
    let a : get_or fs.faults 0 none ≡ none = ap (λ l. get_or l 0 none) clean in
    rw (a, get_part) refl

-- Without faults, and where the temporary name is new, SavePart of a reader that does not fail and
-- that fits in a part returns no error, and GetPart reads the content back.
pub get_part-save_part_fits :
    {B : Type 0} (s : Disk) (fs : Fs B) (id : ObjectId) (part : ℕ) (suffix : Text)
    (reader : Stream B)
    → fs.faults ≡ []
    → find (get_object_id_path s id) (temporary part suffix) fs.files ≡ none
    → reader.fails ≡ false
    → length reader.content ≤ s.part_size
    → ((save_part s fs id part suffix reader).1 ≡ true)
      × ((get_part s (save_part s fs id part suffix reader).0 id part).1 ≡ some reader.content)
get_part-save_part_fits s fs id part suffix reader clean fresh reads fits =
    let r = save_part-IsRenamed s fs id part suffix reader clean fresh reads fits in
    (r.ok, get_part-found s _ id part r.no_faults ∙ r.found)
