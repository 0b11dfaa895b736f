-- ===== src/Fs/Removal.antt =====
-- `fs_delete_file` and `fs_delete` of src/fs.c.
pub mod Shift
pub mod Reindex
pub mod Undo
pub mod Unlink
use fox_os.Base.{
  ℕ, zero, suc, ◌+◌, ◌-◌, ◌%◌, ◌^◌, Bool, true, false, ◌&&◌, List, [], ◌∷◌, map, ◌++◌, Option, none,
  some, Run, ret, ◌>>=◌, ltb, ◌==◌, if◌then◌else◌, load, store, modify, take, drop,
}
use fox_os.Fs.{File, Fs, dir_at, live}
use fox_os.Fs.Lookup.{fs_parse_path}
use fox_os.Fs.Table.{clear}

-- `files[i] = files[i + 1];`
abbrev pub copy_next : List File → ℕ → Run (List File)
copy_next files i = load files (suc i) >>= λ f. store files i f

-- `if (files[j].parent_index > i) files[j].parent_index--;`
abbrev pub lower : ℕ → File → File
lower i f = if ltb i f.parent_index then record f { parent_index = f.parent_index - 1 } else f

-- The inner loop, over the first `count` entries.
abbrev pub lower_parents : ℕ → ℕ → List File → List File
lower_parents count i files = map (lower i) (take count files) ++ drop count files

-- The outer loop, with the number of its rounds left: `i` runs up to `count - 1`.
unfoldable pub shift_down : ℕ → ℕ → ℕ → List File → Run (List File)
shift_down zero count i files = ret files
shift_down (suc rounds) count i files =
    copy_next files i >>= λ files'. shift_down rounds count (suc i) (lower_parents count i files')

-- The loop that looks for an entry in the directory.
abbrev pub has_child : List File → ℕ → Bool
has_child [] index = false
has_child (f ∷ files) index =
    let rest = has_child files index in if f.parent_index == index then true else rest

-- The rest of `fs_delete_file` once the path has been resolved; the root is refused.
unfoldable pub delete_file_at : Fs → Option ℕ → Run (Option ℕ × Fs)
delete_file_at fs none = ret (none, fs)
delete_file_at fs (some zero) = ret (none, fs)
delete_file_at fs (some (suc k)) =
    if dir_at fs.files (suc k) && has_child (live fs) (suc k)
    then ret (none, fs)
    else (shift_down (fs.file_count - 1 - suc k) fs.file_count (suc k) fs.files >>= λ files'.
        ret (some 0, record { files = files'; file_count = fs.file_count - 1 }))

unfoldable pub fs_delete_file : Fs → List ℕ → Run (Option ℕ × Fs)
fs_delete_file fs path = fs_parse_path fs path >>= λ r. delete_file_at fs r

-- The rest of `fs_delete` once the path has been resolved.
unfoldable pub delete_at : Fs → Option ℕ → Option ℕ × Fs
delete_at fs none = (none, fs)
delete_at fs (some zero) = (none, fs)
delete_at fs (some (suc k)) = (some 0, record fs { files = modify fs.files (suc k) clear })

unfoldable pub fs_delete : Fs → List ℕ → Run (Option ℕ × Fs)
fs_delete fs path = fs_parse_path fs path >>= λ r. ret (delete_at fs r)
