-- ===== src/Fs/Lookup.antt =====
-- `get_next_path_component`, `fs_parse_path` and `fs_get_file` of src/fs.c.
pub mod Resolve
pub mod Append
use fox_os.Base.{
  ℕ, zero, suc, ◌+◌, Bool, ◌||◌, ◌&&◌, not, true, false, List, [], ◌∷◌, Option, none, some, Run,
  ret, fault, ◌>>=◌, need, ltb, ◌==◌, if◌then◌else◌, length, get_elem?,
}
use fox_os.Fs.{max_filename, File, Fs, find_child}

abbrev pub slash : ℕ
slash = b'/'

-- `while (*path == '/') path++;`
abbrev pub skip_slashes : List ℕ → List ℕ
skip_slashes [] = []
skip_slashes (c ∷ path) = if c == slash then skip_slashes path else c ∷ path

-- `while (*path && *path != '/') *component++ = *path++;`: what is copied, and what is left.
abbrev pub copy_component : List ℕ → List ℕ × List ℕ
copy_component [] = ([], [])
copy_component (c ∷ path) =
    let r = copy_component path in if c == slash then ([], c ∷ path) else (c ∷ r.0, r.1)

-- `*path ? path : NULL`
abbrev pub or_null : List ℕ → Option (List ℕ)
or_null [] = none
or_null (c ∷ path) = some (c ∷ path)

-- The component with its NUL goes into an array of 256 bytes.
unfoldable pub get_next_path_component : List ℕ → Run (List ℕ × Option (List ℕ))
get_next_path_component path =
    let r = copy_component (skip_slashes path) in
    need (ltb (length r.0) max_filename) (ret (r.0, or_null r.1))

-- The loop of `fs_parse_path`, with fuel for its rounds; without fuel it is a fault.
unfoldable pub walk : ℕ → Fs → ℕ → List ℕ → Run (Option ℕ)
walk zero fs current path = fault
walk (suc fuel) fs current path = get_next_path_component path >>= λ (component, rest).
    let next : ℕ → Run (Option ℕ) =
      λ i. elim rest [ none ↦ ret (some i) | some path' ↦ walk fuel fs i path' ] in
    elim component [
      | [] ↦ next current
      | c ∷ cs ↦ elim (find_child fs current (c ∷ cs)) [ none ↦ ret none | some i ↦ next i ]
    ]

-- `!*path || (*path == '/' && !*(path + 1))`
abbrev pub is_root_path : List ℕ → Bool
is_root_path [] = true
is_root_path (c ∷ []) = c == slash
is_root_path (c ∷ d ∷ path) = false

-- Each round but the last takes at least one byte of the path.
unfoldable pub fs_parse_path : Fs → List ℕ → Run (Option ℕ)
fs_parse_path fs path =
    if is_root_path path then ret (some 0) else walk (suc (length path)) fs 0 path

-- `&files[index]`: the index stands for the pointer.
unfoldable pub fs_get_file : Fs → List ℕ → Run (Option ℕ)
fs_get_file fs path = fs_parse_path fs path
