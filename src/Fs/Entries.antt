-- ===== src/Fs/Entries.antt =====
-- `fs_mkdir` and `fs_create` of src/fs.c, which differ in the type of what they create.
pub mod Parent
pub mod Reach
use fox_os.Base.{
  ℕ, zero, suc, ◌+◌, ◌*◌, Bool, List, [], ◌∷◌, Option, none, some, Run, ret, fault, need, ◌>>=◌,
  ltb, ◌==◌, if◌then◌else◌, length, take, drop,
}
use fox_os.Fs.{max_filename, FileType, file_type_dir, file_type_file, Fs}
use fox_os.Fs.Lookup.{slash, fs_parse_path}
use fox_os.Fs.Table.{fs_create_file}

-- The loop that looks for the last slash: the index of `last_slash` in the path.
unfoldable pub last_slash_from : ℕ → ℕ → List ℕ → ℕ
last_slash_from i last [] = last
last_slash_from i last (c ∷ path) = last_slash_from (suc i) (if c == slash then i else last) path

unfoldable pub last_slash : List ℕ → ℕ
unfolding last_slash_from
last_slash path = last_slash_from 0 0 path

-- `if (!parent_path[0]) strcpy(parent_path, "/");`
abbrev pub or_root : List ℕ → List ℕ
or_root [] = slash ∷ []
or_root (c ∷ path) = c ∷ path

-- The rest, from the copied name on.
abbrev pub add_entry : Fs → FileType → List ℕ → List ℕ → Run (Option ℕ × Fs)
add_entry fs type parent_path [] = ret (none, fs)
add_entry fs type parent_path (c ∷ name) = fs_parse_path fs parent_path >>= λ r. elim r [
  | none ↦ ret (none, fs)
  | some parent_index ↦ fs_create_file fs (c ∷ name) type parent_index
]

-- From the copy of the path before the last slash on: it goes into 512 bytes, the name behind the
-- slash into 256.
unfoldable pub create_from : FileType → Fs → List ℕ → ℕ → Run (Option ℕ × Fs)
create_from type fs path last =
    let parent_path = take last path in
    let name = drop (suc last) path in
    need (ltb (length parent_path) (max_filename * 2))
      (need (ltb (length name) max_filename) (add_entry fs type (or_root parent_path) name))

-- What both functions do. Of the empty path the byte behind its NUL is read.
unfoldable pub create_at_path : FileType → Fs → List ℕ → Run (Option ℕ × Fs)
create_at_path type fs [] = fault
create_at_path type fs (c ∷ path) = create_from type fs (c ∷ path) (last_slash (c ∷ path))

unfoldable pub fs_mkdir : Fs → List ℕ → Run (Option ℕ × Fs)
fs_mkdir fs path = create_at_path file_type_dir fs path

unfoldable pub fs_create : Fs → List ℕ → Run (Option ℕ × Fs)
fs_create fs path = create_at_path file_type_file fs path
