-- ===== src/Fs/Removal/Undo.antt =====
-- `fs_delete_file` of what `fs_create_file` has just made.
use fox_os.Base.{
  ℕ, zero, suc, ◌+◌, ◌-◌, ◌<◌, ◌≤◌, ◌≡◌, refl, sym, ap, ◌∙◌, false, List, [], ◌∷◌, ◌++◌, map, some,
  ret, length, arith, erase_idx, length-take, All, All-get_elem?, All-imp, some-get_elem?, ne→==,
}
use fox_os.Fs.{File, FileType, Fs, live}
use fox_os.Fs.Table.{fs_create_file}
use fox_os.Fs.Table.Create.{made, create_file-Created, live-Created}
use fox_os.Fs.Table.Inv.{IsTree, create_file-IsTree, parent-lt, live_entry}
use fox_os.Fs.Removal.{lower, has_child, delete_file_at}
use fox_os.Fs.Removal.Reindex.{delete_file_correct}

has_child_none :
    (files : List File) (i : ℕ) → All (λ f. f.parent_index < i) files → has_child files i ≡ false
has_child_none [] i h = refl
has_child_none (f ∷ files) i h = ground (arith, ne→== f.parent_index i, has_child_none files i h.1)

has_child-append :
    (files : List File) (i : ℕ) (f : File)
    → All (λ g. g.parent_index < i) files
    → f.parent_index < i
    → has_child (files ++ (f ∷ [])) i ≡ false
has_child-append [] i f h l = ground arith
has_child-append (g ∷ files) i f h l = ground (arith, has_child-append files i f h.1)

erase_idx-append :
    (files : List File) (n : ℕ) (f : File)
    → length files ≡ n
    → erase_idx (files ++ (f ∷ [])) n ≡ files
erase_idx-append [] zero f h = refl
erase_idx-append [] (suc n) f h = absurd (omega arith)
erase_idx-append (x ∷ files) zero f h = absurd (omega arith)
erase_idx-append (x ∷ files) (suc n) f h = ap (x ∷◌) (erase_idx-append files n f (omega arith))

map-lower_none :
    (i : ℕ) (files : List File) → All (λ f. f.parent_index < i) files → map (lower i) files ≡ files
map-lower_none i [] h = refl
map-lower_none i (f ∷ files) h = ground (arith, map-lower_none i files h.1)

live-below : (fs : Fs) → IsTree fs → All (λ f. f.parent_index < fs.file_count) (live fs)
live-below fs v =
    All-get_elem? (λ f. f.parent_index < fs.file_count) (live fs)
      (λ i f e. let (l, e') = live_entry fs i f e in parent-lt v i f l e')

-- `fs_delete_file` of the entry that `fs_create_file` has just made in a directory of the table
-- succeeds and leaves the entries in use and their number as they were before.
pub create-delete :
    (fs : Fs) (name : List ℕ) (type : FileType) (parent : ℕ) {index : ℕ} {fs' : Fs}
    → IsTree fs
    → parent < fs.file_count
    → fs_create_file fs name type parent ≡ ret (some index, fs')
    → (fs'' : Fs) × (delete_file_at fs' (some index) ≡ ret (some 0, fs''))
      × (fs''.file_count ≡ fs.file_count)
      × (live fs'' ≡ live fs)
create-delete fs name type parent {index} {fs'} v below h =
    let c = create_file-Created fs name type parent h in
    let v' = create_file-IsTree fs name type parent v below h in
    let n = fs.file_count in
    let k = n - 1 in
    let at : n ≡ suc k = omega (arith, v.not_empty) in
    let (f, e) = some-get_elem? fs.files n (omega (arith, c.room, v.table.cells)) in
    let entries = live-Created f c e in
    let old = live-below fs v in
    let none_in : has_child (live fs') n ≡ false =
      ap (λ xs. has_child xs n) entries
      ∙ has_child-append (live fs) n (made name type parent f) old below in
    let erased : erase_idx (live fs') n ≡ live fs =
      ap (λ xs. erase_idx xs n) entries
      ∙ erase_idx-append (live fs) n (made name type parent f)
          (omega (arith, length-take n fs.files, c.room, v.table.cells)) in
    let erased_at : erase_idx (live fs') (suc k) ≡ live fs =
      ap (erase_idx (live fs')) (sym at) ∙ erased in
    let none_at : has_child (live fs') (suc k) ≡ false =
      ap (has_child (live fs')) (sym at) ∙ none_in in
    let near : All (λ g. (g.parent_index ≤ suc k + 2) × (g.parent_index < fs'.file_count))
        (erase_idx (live fs') (suc k)) =
      rw erased_at (All-imp _ _ (live fs) (λ g l. omega (arith, c.count)) old) in
    let (fs'', d, m, s) =
      delete_file_correct fs' k (omega (arith, c.count)) (omega (arith, v'.fits, v'.table.cells))
        (ground (arith, none_at)) near in
    (
      fs'',
      ap (λ i. delete_file_at fs' (some i)) (c.at_end ∙ at) ∙ d,
      omega (arith, c.count),
      s
          ∙ ap (map (lower (suc k))) erased_at
          ∙ map-lower_none (suc k) (live fs) (All-imp _ _ (live fs) (λ g l. omega arith) old),
    )
