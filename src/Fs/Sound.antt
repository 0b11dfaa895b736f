-- ===== src/Fs/Sound.antt =====
-- What every function of the file system needs of the table, and keeps, also where `fs_delete_file`
-- breaks the tree.
use fox_os.Base.{
  some-get_elem?, ℕ, zero, suc, ◌+◌, ◌-◌, ◌<◌, ◌≤◌, ◌≡◌, refl, ◌∙◌, ◌&&◌, List, [], ◌∷◌, ◌++◌, map,
  Option, none, some, ret, Ends, arith, length, All, erase_idx, Bool-cases, Option-cases, inl, inr,
  modify, length-modify, leb, ◌||◌, not, find_index-lt, length-take, lt→ltb,
}
use fox_os.Fs.{max_files, max_filename, FileType, File, Fs, live, dir_at, find_child, is_named}
use fox_os.Fs.Table.{fs_create_file}
use fox_os.Fs.Table.Create.{Created, create_file-Created, create_file-failed, made, live-Created}
use fox_os.Fs.Listing.{list_at}
use fox_os.Fs.Listing.Complete.{HasShortName, list_from-StaysIn}
use fox_os.Fs.Lookup.Resolve.{resolve}
use fox_os.Fs.Removal.{delete_file_at, has_child}
use fox_os.Fs.Removal.Shift.{length-shifted_down, lower_all}
use fox_os.Fs.Removal.Reindex.{removed, delete_file_at-ret, removed-live}

pub record IsSound (fs : Fs) : Type 0 where
  pub cells : length fs.files ≡ max_files
  pub not_empty : 0 < fs.file_count
  pub fits : fs.file_count ≤ max_files
  pub names : All HasShortName (live fs)

All-snoc :
    (xs : List File) (f : File)
    → All HasShortName xs
    → HasShortName f
    → All HasShortName (xs ++ (f ∷ []))
All-snoc [] f a h = (h, tt)
All-snoc (x ∷ xs) f a h = (a.0, All-snoc xs f a.1 h)

create_file_ends :
    (fs : Fs) (name : List ℕ) (type : FileType) (parent : ℕ)
    → length name < max_filename
    → (r : Option ℕ × Fs) × (fs_create_file fs name type parent ≡ ret r)
unfolding fs_create_file
create_file_ends fs name type parent l = elim (Bool-cases (leb max_files fs.file_count)) [
  | inl e ↦ ((none, fs), rw e refl)
  | inr e ↦ elim (Bool-cases (leb max_files parent || not (dir_at fs.files parent))) [
    | inl e' ↦ ((none, fs), rw (e, e') refl)
    | inr e' ↦ elim (Option-cases (find_child fs parent name)) [
      | inl n ↦ (
        (
          some fs.file_count,
          record {
            files = modify fs.files fs.file_count (made name type parent);
            file_count = fs.file_count + 1;
          },
        ),
        rw (e, e', n, lt→ltb (length name) max_filename l) refl,
      )
      | inr (i, n) ↦ ((none, fs), rw (e, e', n) refl)
    ]
  ]
]

Created-IsSound :
    {fs fs' : Fs} {name : List ℕ} {type : FileType} {parent index : ℕ}
    → Created fs name type parent index fs'
    → IsSound fs
    → IsSound fs'
Created-IsSound {fs} {fs'} {name} {type} {parent} c v =
    let (f, g) = some-get_elem? fs.files fs.file_count (omega (arith, c.room, v.cells)) in
    record {
      cells = rw c.cells (length-modify fs.files fs.file_count (made name type parent) ∙ v.cells);
      not_empty = omega (arith, c.count);
      fits = omega (arith, c.count, c.room);
      names =
          rw (live-Created f c g) (All-snoc (live fs) (made name type parent f) v.names c.short);
    }

returned-IsSound :
    (fs : Fs) (name : List ℕ) (type : FileType) (parent : ℕ) (r : Option ℕ × Fs)
    → IsSound fs
    → fs_create_file fs name type parent ≡ ret r
    → IsSound r.1
returned-IsSound fs name type parent (none, fs') v e =
    rw (create_file-failed fs name type parent e) v
returned-IsSound fs name type parent (some j, fs') v e =
    Created-IsSound (create_file-Created fs name type parent e) v

-- `fs_create_file` of a name that fits.
pub create_file-IsSound :
    (fs : Fs) (name : List ℕ) (type : FileType) (parent : ℕ)
    → IsSound fs
    → length name < max_filename
    → Ends (fs_create_file fs name type parent) (λ r. IsSound r.1)
create_file-IsSound fs name type parent v l =
    let (r, e) = create_file_ends fs name type parent l in
    (r, e, returned-IsSound fs name type parent r v e)

All-erase_idx : (xs : List File) (i : ℕ) → All HasShortName xs → All HasShortName (erase_idx xs i)
All-erase_idx [] i a = tt
All-erase_idx (x ∷ xs) zero a = a.1
All-erase_idx (x ∷ xs) (suc i) a = (a.0, All-erase_idx xs i a.1)

All-lower_all :
    (r i : ℕ) (xs : List File) → All HasShortName xs → All HasShortName (map (lower_all r i) xs)
All-lower_all r i [] a = tt
All-lower_all r i (x ∷ xs) a = (a.0, All-lower_all r i xs a.1)

pub delete_file_at-IsSound :
    (fs : Fs) (r : Option ℕ)
    → IsSound fs
    → ((i : ℕ) → r ≡ some i → i < fs.file_count)
    → Ends (delete_file_at fs r) (λ x. IsSound x.1)
delete_file_at-IsSound fs none v h = unfold delete_file_at in (_, refl, v)
delete_file_at-IsSound fs (some zero) v h = unfold delete_file_at in (_, refl, v)
delete_file_at-IsSound fs (some (suc k)) v h =
    elim (Bool-cases (dir_at fs.files (suc k) && has_child (live fs) (suc k))) [
      | inl e ↦ unfold delete_file_at in ((none, fs), rw e refl, v)
      | inr e ↦
          let l = h (suc k) refl in
          let fit : fs.file_count ≤ length fs.files = omega (arith, v.fits, v.cells) in
          let r = fs.file_count - 1 - suc k in
          (
            (some 0, removed fs k),
            delete_file_at-ret fs k l fit e,
            record {
              cells = length-shifted_down r fs.file_count (suc k) fs.files fit ∙ v.cells;
              not_empty = omega arith;
              fits = omega (arith, v.fits);
              names = rw (removed-live fs k l fit) (
                  All-lower_all r (suc k) (erase_idx (live fs) (suc k))
                    (All-erase_idx (live fs) (suc k) v.names));
            },
          )
    ]

find_child-lt :
    (fs : Fs) (i : ℕ) (name : List ℕ) {m : ℕ} → find_child fs i name ≡ some m → m < fs.file_count
unfolding find_child
find_child-lt fs i name e =
    omega (arith, find_index-lt (is_named i name) (live fs) e, length-take fs.file_count fs.files)

-- A path leads to an entry in use.
pub resolve-lt :
    (fs : Fs) (i : ℕ) (names : List (List ℕ)) {j : ℕ}
    → i < fs.file_count
    → resolve fs i names ≡ some j
    → j < fs.file_count
unfolding resolve
resolve-lt fs i [] l h = ground arith
resolve-lt fs i (name ∷ names) {j} l h = elim (Option-cases (find_child fs i name)) [
  | inl e ↦ absurd (ground arith)
  | inr (m, e) ↦ resolve-lt fs m names {j = j} (find_child-lt fs i name e) (ground arith)
]

-- `fs_list_dir` into a buffer of any size from 1 to 2 ^ 32 - 1.
pub list_at-Ends :
    (fs : Fs) (r : Option ℕ) (b : ℕ)
    → IsSound fs
    → 0 < b
    → b < 4294967296
    → Ends (list_at fs r b) (λ r'. Unit {0})
unfolding list_at
list_at-Ends fs none b v p q = (_, refl, tt)
list_at-Ends fs (some d) b v p q = elim (Bool-cases (leb max_files d || not (dir_at fs.files d))) [
  | inl e ↦ ((none, []), rw e refl, tt)
  | inr e ↦
      let (n, out, e', s) = list_from-StaysIn (live fs) 0 d b [] 0 q p v.names in
      ((some n, out), rw (e, e', lt→ltb (length out) b s) refl, tt)
]
