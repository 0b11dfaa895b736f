-- ===== src/Fs/Entries/Reach.antt =====
-- What `fs_mkdir` and `fs_create` have created is where their path leads.
use fox_os.Base.{
  some-get_elem?, get_elem?-modify_self, ℕ, ◌*◌, ◌<◌, ◌≡◌, refl, sym, ap, ◌∙◌, List, [], ◌∷◌, ◌++◌,
  some, ret, length, arith, All, Option-cases, inl, inr,
}
use fox_os.Fs.{dir_at, is_dir, max_files, max_filename, FileType, Fs}
use fox_os.Fs.Lookup.{slash, fs_parse_path}
use fox_os.Fs.Lookup.Resolve.{components, resolve, IsShort, parse_path_resolves}
use fox_os.Fs.Lookup.Append.{NoSlash, components-append, resolve-append}
use fox_os.Fs.Table.{fs_create_file}
use fox_os.Fs.Table.Create.{create_file-Created, made, find_child-create}
use fox_os.Fs.Entries.{or_root, add_entry, create_at_path}
use fox_os.Fs.Entries.Parent.{create_at_path-split}

pub components-or_root : (dir : List ℕ) → components (or_root dir) ≡ components dir
unfolding components
components-or_root [] = refl
components-or_root (c ∷ dir) = refl

All-snoc :
    (ps : List (List ℕ)) (p : List ℕ) → All IsShort ps → IsShort p → All IsShort (ps ++ (p ∷ []))
All-snoc [] p h k = (k, tt)
All-snoc (q ∷ ps) p h k = (h.0, All-snoc ps p h.1 k)

-- What has been done when the creation succeeds.
add_entry-inv :
    (fs : Fs) (type : FileType) (dir : List ℕ) (c : ℕ) (cs : List ℕ) {index : ℕ} {fs' : Fs}
    → All IsShort (components dir)
    → add_entry fs type (or_root dir) (c ∷ cs) ≡ ret (some index, fs')
    → (parent : ℕ) × (resolve fs 0 (components dir) ≡ some parent)
      × (fs_create_file fs (c ∷ cs) type parent ≡ ret (some index, fs'))
add_entry-inv fs type dir c cs {index} {fs'} s h =
    let p = parse_path_resolves fs (or_root dir) (rw components-or_root s) in
    elim (Option-cases (resolve fs 0 (components dir))) [
      | inl e ↦ absurd (ground (arith, p, components-or_root dir))
      | inr (parent, e) ↦ (parent, e, ground (arith, p, components-or_root dir))
    ]

-- When `fs_mkdir` or `fs_create` has succeeded for a path, whose components are shorter than 256
-- bytes and whose directory part is shorter than 512, in a table of 256 cells, `fs_parse_path` leads
-- that path to the new entry.
pub create_reachable :
    (type : FileType) (fs : Fs) (dir name : List ℕ) {index : ℕ} {fs' : Fs}
    → length fs.files ≡ max_files
    → NoSlash name
    → length dir < max_filename * 2
    → length name < max_filename
    → All IsShort (components dir)
    → create_at_path type fs (dir ++ (slash ∷ name)) ≡ ret (some index, fs')
    → fs_parse_path fs' (dir ++ (slash ∷ name)) ≡ ret (some index)
create_reachable type fs dir [] cells n l k s h =
    absurd (cc (sym (create_at_path-split type fs dir [] n l k) ∙ h))
create_reachable type fs dir (c ∷ cs) {index} {fs'} cells n l k s h =
    let names = components-append dir c cs n in
    let (parent, r, made) =
      add_entry-inv fs type dir c cs s
        (sym (create_at_path-split type fs dir (c ∷ cs) n l k) ∙ h) in
    let (found, kept) = find_child-create fs (c ∷ cs) type parent cells made in
    parse_path_resolves fs' (dir ++ (slash ∷ c ∷ cs)) (rw names (All-snoc _ (c ∷ cs) s k))
    ∙ ap ret (
        rw names (
          resolve-append fs fs' 0 (components dir) (c ∷ cs) (λ q m j e. ground (arith, kept q m)) r
            found))

-- What is created is of the type that was asked for.
pub create-dir_at :
    (type : FileType) (fs : Fs) (dir name : List ℕ) {index : ℕ} {fs' : Fs}
    → length fs.files ≡ max_files
    → NoSlash name
    → length dir < max_filename * 2
    → length name < max_filename
    → All IsShort (components dir)
    → create_at_path type fs (dir ++ (slash ∷ name)) ≡ ret (some index, fs')
    → dir_at fs'.files index ≡ is_dir type
create-dir_at type fs dir [] cells n l k s h =
    absurd (cc (sym (create_at_path-split type fs dir [] n l k) ∙ h))
create-dir_at type fs dir (c ∷ cs) {index} {fs'} cells n l k s h =
    let (parent, r, done) =
      add_entry-inv fs type dir c cs s
        (sym (create_at_path-split type fs dir (c ∷ cs) n l k) ∙ h) in
    let m = create_file-Created fs (c ∷ cs) type parent done in
    let (f, g) = some-get_elem? fs.files fs.file_count (omega (arith, m.room, cells)) in
    ground (
      arith,
      m.cells,
      m.at_end,
      get_elem?-modify_self fs.files fs.file_count (made (c ∷ cs) type parent) g,
    )
