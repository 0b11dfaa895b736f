-- ===== src/Terminal/Args.antt =====
-- `parse_args` and `build_path` of src/terminal.c, on the texts that the arrays hold: `arg1` and
-- `arg2` have 256 bytes, `full_path` has 512.
pub mod Words
pub mod Paths
use fox_os.Base.{
  ℕ, ◌+◌, ◌*◌, ◌<◌, Bool, true, false, List, [], ◌∷◌, ◌++◌, Run, ret, need, ltb, ◌==◌, ◌>>=◌,
  if◌then◌else◌, length,
}
use fox_os.Fs.{max_filename}
use fox_os.Fs.Lookup.{slash}

-- `while (*cmd && *cmd != ' ') cmd++;`, with what is passed, and what is left.
abbrev pub take_word : List ℕ → List ℕ × List ℕ
take_word [] = ([], [])
take_word (c ∷ cmd) = let r = take_word cmd in if c == b' ' then ([], c ∷ cmd) else (c ∷ r.0, r.1)

-- `while (*cmd == ' ') cmd++;`
abbrev pub skip_spaces : List ℕ → List ℕ
skip_spaces [] = []
skip_spaces (c ∷ cmd) = if c == b' ' then skip_spaces cmd else c ∷ cmd

unfoldable pub parse_args : List ℕ → Run (List ℕ × List ℕ)
parse_args cmd =
    let first = take_word (skip_spaces (take_word cmd).1) in
    let second = skip_spaces first.1 in
    need (ltb (length first.0) max_filename)
      (need (ltb (length second) max_filename) (ret (first.0, second)))

-- `relative_path[0] == '/'`
abbrev pub is_absolute : List ℕ → Bool
is_absolute [] = false
is_absolute (c ∷ path) = c == slash

-- `current_dir[1] != 0`, of a text that is not empty.
abbrev pub is_below_root : List ℕ → Bool
is_below_root [] = false
is_below_root (c ∷ []) = false
is_below_root (c ∷ d ∷ path) = true

-- `strcat(full_path, text)`
abbrev pub append_path : List ℕ → List ℕ → Run (List ℕ)
append_path path text = need (ltb (length (path ++ text)) (max_filename * 2)) (ret (path ++ text))

unfoldable pub build_path : List ℕ → List ℕ → Run (List ℕ)
build_path current_dir relative_path =
    if is_absolute relative_path
    then append_path [] relative_path
    else (append_path [] current_dir >>= λ base.
        (if is_below_root current_dir then append_path base (slash ∷ []) else ret base) >>= λ dir.
        append_path dir relative_path)
