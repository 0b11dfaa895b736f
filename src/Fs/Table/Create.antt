-- ===== src/Fs/Table/Create.antt =====
-- What `fs_create_file` does to the table, and to the lookup of names.
use fox_os.Base.{
  ℕ, ◌+◌, ◌<◌, ◌≡◌, refl, ap, true, ◌&&◌, List, [], ◌∷◌, ◌++◌, none, some, ret, length, get_elem?,
  arith, take-modify_end, ◌==◌, if◌then◌else◌, some-get_elem?, eq→==, ◌∙◌, find_index-append,
  find_index, length-take, modify,
}
use fox_os.Fs.{max_files, max_filename, FileType, File, Fs, live, dir_at, is_named, find_child}
use fox_os.Fs.Table.{fs_create_file}
use fox_os.Text.{strcmp, is_zero}
use fox_os.Text.Compare.{strcmp_self}
use native.Mathlib.Numerals.{add-one}

-- The entry that is written over a cell of the table.
abbrev pub made : List ℕ → FileType → ℕ → File → File
made name type parent f = record f { name = name; type = type; size = 0; parent_index = parent }

-- What has been tested when `fs_create_file` succeeds, and the table that it leaves.
pub record Created (fs : Fs) (name : List ℕ) (type : FileType) (parent index : ℕ) (fs' : Fs)
    : Type 0 where
  pub room : fs.file_count < max_files
  pub directory : dir_at fs.files parent ≡ true
  pub absent : find_child fs parent name ≡ none
  pub short : length name < max_filename
  pub at_end : index ≡ fs.file_count
  pub count : fs'.file_count ≡ fs.file_count + 1
  pub cells : fs'.files ≡ modify fs.files fs.file_count (made name type parent)

pub create_file-Created :
    (fs : Fs) (name : List ℕ) (type : FileType) (parent : ℕ) {index : ℕ} {fs' : Fs}
    → fs_create_file fs name type parent ≡ ret (some index, fs')
    → Created fs name type parent index fs'
unfolding fs_create_file
create_file-Created fs name type parent h = ground arith

-- A failure leaves the table as it is.
pub create_file-failed :
    (fs : Fs) (name : List ℕ) (type : FileType) (parent : ℕ) {fs' : Fs}
    → fs_create_file fs name type parent ≡ ret (none, fs')
    → fs' ≡ fs
unfolding fs_create_file
create_file-failed fs name type parent h = ground arith

-- The entry written, given the cell that stood there.
pub live-Created :
    {fs fs' : Fs} {name : List ℕ} {type : FileType} {parent index : ℕ} (f : File)
    → Created fs name type parent index fs'
    → get_elem? fs.files fs.file_count ≡ some f
    → live fs' ≡ live fs ++ (made name type parent f ∷ [])
live-Created {fs} {fs'} {name} {type} {parent} f c g =
    rw (c.count, c.cells, add-one) (take-modify_end fs.file_count fs.files _ g)

find_child-append :
    {fs fs' : Fs} {name : List ℕ} {type : FileType} {parent index : ℕ} (f : File)
    → length (live fs) ≡ fs.file_count
    → Created fs name type parent index fs'
    → get_elem? fs.files fs.file_count ≡ some f
    → (q : ℕ) (m : List ℕ)
    → find_child fs' q m ≡ elim (find_child fs q m) [
      | some i ↦ some i
      | none ↦ if (parent == q) && is_zero (strcmp name m) then some index else none
    ]
unfolding find_child
find_child-append {fs} {fs'} {name} {type} {parent} f long c e q m = ground (
  arith,
  ap (find_index (is_named q m)) (live-Created f c e),
  find_index-append (is_named q m) (live fs) (made name type parent f),
  c.at_end,
)

find_child-Created :
    {fs fs' : Fs} {name : List ℕ} {type : FileType} {parent index : ℕ}
    → length fs.files ≡ max_files
    → Created fs name type parent index fs'
    → (q : ℕ) (m : List ℕ)
    → find_child fs' q m ≡ elim (find_child fs q m) [
      | some i ↦ some i
      | none ↦ if (parent == q) && is_zero (strcmp name m) then some index else none
    ]
find_child-Created {fs} l c =
    let (f, e) = some-get_elem? fs.files fs.file_count (omega (arith, c.room)) in
    find_child-append f (omega (arith, length-take fs.file_count fs.files, c.room)) c e

-- After `fs_create_file` has succeeded in a table of 256 cells, the new name is found in its
-- directory at the new index, which is the old number of entries, and every other lookup finds
-- what it found before.
pub find_child-create :
    (fs : Fs) (name : List ℕ) (type : FileType) (parent : ℕ) {index : ℕ} {fs' : Fs}
    → length fs.files ≡ max_files
    → fs_create_file fs name type parent ≡ ret (some index, fs')
    → (find_child fs' parent name ≡ some index)
      × ((q : ℕ) (m : List ℕ)
          → find_child fs' q m ≡ elim (find_child fs q m) [
            | some i ↦ some i
            | none ↦ if (parent == q) && is_zero (strcmp name m) then some index else none
          ])
find_child-create fs name type parent {index} {fs'} l h =
    let c = create_file-Created fs name type parent h in
    (
      find_child-Created l c parent name
          ∙ rw (c.absent, eq→== parent parent refl, strcmp_self name),
      find_child-Created l c,
    )
