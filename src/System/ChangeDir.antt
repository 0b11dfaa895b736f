-- ===== src/System/ChangeDir.antt =====
-- `cd` on the files as their users see them.
use fox_os.Base.{
  ℕ, ◌<◌, ◌≤◌, ◌≡◌, refl, sym, ap, ◌∙◌, Bool, true, false, List, ◌++◌, Option, none, some, Run, ret,
  arith, length, All, Option-cases, Bool-cases, inl, inr, get_elem?, if◌then◌else◌, codes,
}
use fox_os.Fs.{Fs, dir_at}
use fox_os.Fs.Lookup.{fs_get_file}
use fox_os.Fs.Lookup.Resolve.{components, resolve, IsShort, parse_path_resolves}
use fox_os.Fs.View.{node_at, node_at-entry, node_at-none, view}
use fox_os.Fs.View.Create.{is_directory, is_directory-dir_at}
use fox_os.Screen.{Screen}
use fox_os.Screen.Cursor.{OnScreen}
use fox_os.System.{System}
use fox_os.System.Files.{enter, cd_to}
use fox_os.System.Files
use fox_os.System.Printing.{print_plain}
use fox_os.System.Safe.{IsReady}
use fox_os.System.Safe.Paths.{build_path-IsPath}
use fox_os.Terminal.Args.{is_absolute, build_path}
use fox_os.Terminal.Args.Paths.{build_path-components}

-- Where `cd` goes to.
abbrev pub target : System → List ℕ → List (List ℕ)
target k arg =
    if is_absolute arg then components arg else components k.current_dir ++ components arg

-- What `cd` promises: the current directory has these components, and nothing else has changed, if a
-- directory stands there; else only the screen has changed.
abbrev pub Changes : System → List (List ℕ) → Bool → Run System → Type 0
Changes k names true r =
    (dir : List ℕ) × (r ≡ ret (record k { current_dir = dir })) × (components dir ≡ names)
Changes k names false r = (s : Screen) × (r ≡ ret (record k { screen = s }))

same_test : (fs : Fs) (r : Option ℕ) → Files.is_directory fs r ≡ is_directory (node_at fs r)
same_test fs none = refl
same_test fs (some i) = elim (Option-cases (get_elem? fs.files i)) [
  | inl n ↦ rw (dir_at, node_at-none fs i n, n) refl
  | inr (f, e) ↦ rw (node_at-entry fs i f e) (sym (is_directory-dir_at fs i f f.type e refl))
]

enter-Changes :
    (k : System) (full : List ℕ) (r : Option ℕ)
    → OnScreen k.screen
    → Changes k (components full) (is_directory (node_at k.fs r)) (enter k full r)
unfolding enter
enter-Changes k full r v = elim (Bool-cases (is_directory (node_at k.fs r))) [
  | inl e ↦ rw (same_test k.fs r, e) (full, refl, refl)
  | inr e ↦
      let (k', g, (s, z, _)) = print_plain k (codes "Error: Directory not found\n") v refl in
      rw (same_test k.fs r, e) (s, g ∙ ap ret z)
]

built-Changes :
    (k : System) (arg full : List ℕ)
    → OnScreen k.screen
    → build_path k.current_dir arg ≡ ret full
    → All IsShort (components full)
    → Changes k (components full) (is_directory (view k.fs (components full))) (cd_to k arg)
unfolding cd_to fs_get_file view
built-Changes k arg full v b s =
    rw (b, parse_path_resolves k.fs full s)
      (enter-Changes k full (resolve k.fs 0 (components full)) v)

-- `cd` with an argument. If the argument begins with a slash, the target has its components, and
-- else those of the current directory and of the argument. Where a directory stands there, the
-- current directory has these components afterwards, and nothing else has changed; else only the
-- screen has changed. Before, the cursor is on the screen, the table has 256 entries of which at least
-- one and at most 256 are in use and whose names in use are shorter than 256, and the current
-- directory is an absolute path of at most 255 bytes whose names are shorter than 256; the argument
-- has 1 to 255 bytes.
pub cd_refines :
    (k : System) (n : ℕ) (arg : List ℕ)
    → n ≤ 255
    → IsReady k n
    → 0 < length arg
    → length arg < 256
    → Changes k (target k arg) (is_directory (view k.fs (target k arg))) (cd_to k arg)
cd_refines k n arg l v h m =
    let d = v.directory in
    let (full, b, p) = build_path-IsPath k.current_dir arg n d h m (omega arith) in
    let (full', b', c) =
      build_path-components d.rest arg (omega (arith, d.short, ap length d.absolute)) in
    let same : full ≡ full' = cc (sym b ∙ ap (λ x. build_path x arg) d.absolute ∙ b') in
    let names : components full ≡ target k arg =
      ap components same
      ∙ c
      ∙ ap (λ x. if is_absolute arg then components arg else components x ++ components arg)
          (sym d.absolute) in
    rw (sym names) (built-Changes k arg full v.on_screen b p.names)
