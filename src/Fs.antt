-- ===== src/Fs.antt =====
-- The data of src/fs.h and the static table of src/fs.c. A `char` array is the text that it holds,
-- without its NUL and what stands behind that; Text shows the string functions to work on these
-- texts. An `int` result that is -1 for a failure is `none`.
pub mod Table
pub mod Lookup
pub mod Content
pub mod Removal
pub mod Listing
pub mod Entries
pub mod Sound
pub mod View
pub mod Tests
use fox_os.Base.{
  ℕ, ◌-◌, ◌^◌, Bool, true, false, ◌&&◌, List, Option, none, some, ◌==◌, get_elem?, take, find_index,
}
use fox_os.Text.{strcmp, is_zero}

abbrev pub max_filename : ℕ
max_filename = 256

abbrev pub max_file_size : ℕ
max_file_size = 4096

abbrev pub max_files : ℕ
max_files = 256

-- `(uint32_t)-1`
abbrev pub no_parent : ℕ
no_parent = 2 ^ 32 - 1

pub data FileType : Type 0 where
  file_type_none file_type_file file_type_dir : FileType

-- `file_t`; its field `data` is `content` here.
pub record File : Type 0 where
  pub name : List ℕ
  pub type : FileType
  pub size : ℕ
  pub parent_index : ℕ
  pub content : List ℕ

-- The statics `files` and `file_count`.
pub record Fs : Type 0 where
  pub files : List File
  pub file_count : ℕ

abbrev pub is_file : FileType → Bool
is_file file_type_file = true
is_file file_type_none = false
is_file file_type_dir = false

abbrev pub is_dir : FileType → Bool
is_dir file_type_dir = true
is_dir file_type_none = false
is_dir file_type_file = false

-- `files[i].type == FILE_TYPE_DIR`
abbrev pub dir_at : List File → ℕ → Bool
dir_at files i = elim (get_elem? files i) [ none ↦ false | some f ↦ is_dir f.type ]

-- The entries that the loops up to `file_count` visit.
abbrev pub live : Fs → List File
live fs = take fs.file_count fs.files

-- The test of an entry in the loops of `fs_create_file` and `fs_parse_path`.
abbrev pub is_named : ℕ → List ℕ → File → Bool
is_named parent name f = (f.parent_index == parent) && is_zero (strcmp f.name name)

-- The search loop of both functions: the index of the first entry that has the name in the
-- directory.
unfoldable pub find_child : Fs → ℕ → List ℕ → Option ℕ
find_child fs parent name = find_index (is_named parent name) (live fs)
