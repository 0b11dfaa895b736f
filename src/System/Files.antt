-- ===== src/System/Files.antt =====
-- The commands of src/terminal.c that call the file system. `cmd` is the text in the input buffer.
use fox_os.Base.{
  ℕ, suc, ◌*◌, ◌+◌, Bool, true, false, ◌||◌, List, [], ◌∷◌, Option, none, some, Run, ret, need,
  ◌>>=◌, ltb, length, if◌then◌else◌, take, drop, codes,
}
use fox_os.Text.{strcmp, is_zero}
use fox_os.Fs.{max_filename, max_files, Fs, dir_at, file_type_file}
use fox_os.Fs.Lookup.{fs_parse_path, fs_get_file}
use fox_os.Fs.Table.{fs_create_file}
use fox_os.Fs.Entries.{last_slash, or_root, fs_mkdir}
use fox_os.Fs.Listing.{fs_list_dir}
use fox_os.Fs.Removal.{fs_delete_file}
use fox_os.Screen.Printf.{arg_text}
use fox_os.System.{System, print}
use fox_os.Terminal.Args.{parse_args, build_path}

-- `!arg1[0]`
abbrev pub is_empty : List ℕ → Bool
is_empty [] = true
is_empty (c ∷ text) = false

abbrev pub list_size : ℕ
list_size = max_files * (max_filename + 2)

-- `strcpy(full_path, current_dir)`
abbrev pub copy_dir : System → Run (List ℕ)
copy_dir k = need (ltb (length k.current_dir) (max_filename * 2)) (ret k.current_dir)

unfoldable pub print_list : System → Option ℕ × List ℕ → Run System
print_list k (none, text) = print k (codes "Error: Cannot list directory\n") []
print_list k (some count, text) = print k (codes "%s") (arg_text text ∷ [])

-- The directory that is listed.
abbrev pub ls_path : System → List ℕ → Run (List ℕ)
ls_path k arg1 =
    if is_empty arg1 || is_zero (strcmp arg1 (codes "."))
    then copy_dir k
    else build_path k.current_dir arg1

unfoldable pub ls_at : System → List ℕ → Run System
ls_at k arg1 = do
  full_path ← ls_path k arg1
  r ← fs_list_dir k.fs full_path list_size
  print_list k r

unfoldable pub ls : System → List ℕ → Run System
ls k cmd = parse_args cmd >>= λ (arg1, arg2). ls_at k arg1

-- `dir && dir->type == FILE_TYPE_DIR`
abbrev pub is_directory : Fs → Option ℕ → Bool
is_directory fs none = false
is_directory fs (some i) = dir_at fs.files i

-- `current_dir` has room for every text that `full_path` can hold.
unfoldable pub enter : System → List ℕ → Option ℕ → Run System
enter k full_path dir =
    if is_directory k.fs dir
    then ret (record k { current_dir = full_path })
    else print k (codes "Error: Directory not found\n") []

unfoldable pub cd_to : System → List ℕ → Run System
cd_to k arg1 = do
  full_path ← build_path k.current_dir arg1
  dir ← fs_get_file k.fs full_path
  enter k full_path dir

unfoldable pub cd : System → List ℕ → Run System
cd k cmd = parse_args cmd >>= λ (arg1, arg2).
    if is_empty arg1 then ret (record k { current_dir = codes "/" }) else cd_to k arg1

-- The message where a call of the file system has failed, and the table that it has left.
unfoldable pub report : System → List ℕ → Option ℕ × Fs → Run System
report k message (none, fs) = print (record k { fs = fs }) message []
report k message (some r, fs) = ret (record k { fs = fs })

unfoldable pub mkdir_at : System → List ℕ → Run System
mkdir_at k arg1 = do
  full_path ← build_path k.current_dir arg1
  r ← fs_mkdir k.fs full_path
  report k (codes "Error: Cannot create directory\n") r

unfoldable pub mkdir : System → List ℕ → Run System
mkdir k cmd = parse_args cmd >>= λ (arg1, arg2).
    if is_empty arg1 then print k (codes "Error: Directory name required\n") [] else mkdir_at k arg1

-- The rest of `touch` once the parent has been looked up.
unfoldable pub touch_in : System → Option ℕ → List ℕ → Run System
touch_in k none name = print k (codes "Error: Invalid path\n") []
touch_in k (some parent_index) name = do
  r ← fs_create_file k.fs name file_type_file parent_index
  report k (codes "Error: Cannot create file\n") r

unfoldable pub touch_path : System → List ℕ → ℕ → Run System
touch_path k full_path last = do
  parent ← fs_parse_path k.fs (or_root (take last full_path))
  touch_in k parent (drop (suc last) full_path)

unfoldable pub touch_at : System → List ℕ → Run System
touch_at k arg1 = do
  full_path ← build_path k.current_dir arg1
  touch_path k full_path (last_slash full_path)

unfoldable pub touch : System → List ℕ → Run System
touch k cmd = parse_args cmd >>= λ (arg1, arg2).
    if is_empty arg1 then print k (codes "Error: File name required\n") [] else touch_at k arg1

unfoldable pub rm_at : System → List ℕ → Run System
rm_at k arg1 = do
  full_path ← build_path k.current_dir arg1
  r ← fs_delete_file k.fs full_path
  report k (codes "Error: Cannot remove file/directory\n") r

unfoldable pub rm : System → List ℕ → Run System
rm k cmd = parse_args cmd >>= λ (arg1, arg2).
    if is_empty arg1
    then print k (codes "Error: File/directory name required\n") []
    else rm_at k arg1
