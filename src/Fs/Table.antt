-- ===== src/Fs/Table.antt =====
-- `fs_save`, `fs_load`, `fs_init` and `fs_create_file` of src/fs.c.
pub mod Inv
pub mod Create
use fox_os.Base.{
  ℕ, suc, ◌+◌, Bool, ◌||◌, not, true, false, List, [], map, Option, none, some, Run, ret, need, ltb,
  leb, if◌then◌else◌, length, modify,
}
use fox_os.Fs.{
  max_filename, max_files, no_parent, FileType, file_type_none, file_type_dir, File, Fs, dir_at,
  find_child,
}

-- Nothing is written and nothing is read: each returns 1.
unfoldable fs_save : ℕ
fs_save = 1

unfoldable fs_load : ℕ
fs_load = 1

-- The body of the loop of `fs_init`, which is also what `fs_delete` does to an entry.
abbrev pub clear : File → File
clear f = record f { type = file_type_none; size = 0; name = []; parent_index = no_parent }

abbrev pub make_root : File → File
make_root f = record f { name = []; type = file_type_dir; size = 0; parent_index = 0 }

unfoldable pub fs_init : Fs → Fs
fs_init fs = record { files = modify (map clear fs.files) 0 make_root; file_count = 1 }

-- A name with its NUL goes into the 256 bytes of `name`.
unfoldable pub fs_create_file : Fs → List ℕ → FileType → ℕ → Run (Option ℕ × Fs)
fs_create_file fs name type parent =
    if leb max_files fs.file_count
    then ret (none, fs)
    else if leb max_files parent || not (dir_at fs.files parent)
    then ret (none, fs)
    else elim (find_child fs parent name) [
      | some i ↦ ret (none, fs)
      | none ↦ need (ltb (length name) max_filename) (
          ret (
            some fs.file_count,
            record {
              files =
                  modify fs.files fs.file_count
                    (λ f. record f { name = name; type = type; size = 0; parent_index = parent });
              file_count = fs.file_count + 1;
            },
          ))
    ]
