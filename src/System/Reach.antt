-- ===== src/System/Reach.antt =====
-- What the rounds of `terminal_run` keep, whatever keys are pressed and whatever the commands are.
pub mod Commands
pub mod Execute
pub mod Rounds
use fox_os.Base.{
  ℕ, suc, ◌+◌, ◌<◌, ◌≤◌, ◌≡◌, refl, sym, ap, ◌∙◌, true, false, List, [], ◌∷◌, Run, ret, Leaves,
  Ends-Leaves, fault-Leaves, then-Leaves, ret-Leaves, arith, length, All, Bool-cases, inl, inr, ltb,
  ltb→lt, ltb_false→le, ==→eq,
}
use fox_os.Fs.Lookup.{slash}
use fox_os.Fs.Lookup.Resolve.{components, IsShort}
use fox_os.Fs.Sound.{IsSound}
use fox_os.Screen.Printf.{Arg, vga_printf}
use fox_os.System.{System, print}
use fox_os.System.Safe.{IsPath}
use fox_os.System.Safe.Paths.{All-append, absolute_rest, components-IsShort}
use fox_os.Terminal.Args.{is_absolute, build_path}
use fox_os.Terminal.Args.Paths.{absolute_path, relative_path, build_path_overflow, build_path_full}

-- The table is sound, and the current directory is an absolute path that fits into its array.
abbrev pub IsSafe : System → Type 0
IsSafe k = IsSound k.fs × IsPath k.current_dir 511

-- Printing changes the screen only.
pub print-Leaves {κ} :
    (k : System) (format : List ℕ) (args : List Arg) (P : System → Type κ)
    → ((s : _) → P (record k { screen = s }))
    → Leaves (print k format args) P
unfolding print
print-Leaves k format args P h =
    then-Leaves (vga_printf k.screen format args) (λ s. ret-Leaves (h s))

pub print-IsSafe :
    (k : System) (format : List ℕ) (args : List Arg)
    → IsSafe k
    → Leaves (print k format args) IsSafe
print-IsSafe k format args v = print-Leaves k format args IsSafe (λ s. v)

relative-IsPath :
    (r arg : List ℕ)
    → All IsShort (components (slash ∷ r))
    → is_absolute arg ≡ false
    → length arg < 256
    → length r + length arg + 2 < 512
    → Leaves (build_path (slash ∷ r) arg) (λ full. IsPath full 511)
relative-IsPath r arg names e l room =
    let (full, b, c, (rest, a), size) = relative_path r arg e room in
    Ends-Leaves (
      full,
      b,
      record {
        rest = rest;
        absolute = a;
        short = omega (arith, size);
        names =
            rw c (
              All-append (components (slash ∷ r)) (components arg) names
                (components-IsShort arg l));
      },
    )

-- A path that does not fit into `full_path` is not returned.
too_long :
    (r arg : List ℕ)
    → length (slash ∷ r) ≤ 511
    → is_absolute arg ≡ false
    → length arg < 256
    → 512 ≤ length r + length arg + 2
    → Leaves (build_path (slash ∷ r) arg) (λ full. IsPath full 511)
too_long [] arg s e l h = absurd (omega arith)
too_long (c ∷ d) arg s e l h = elim (Bool-cases (ltb (length (slash ∷ c ∷ d)) 511)) [
  | inl b ↦ fault-Leaves (build_path_overflow c d arg e (ltb→lt _ _ b) (omega arith))
  | inr b ↦ fault-Leaves (build_path_full c d arg e (omega (arith, ltb_false→le _ _ b)))
]

path_from :
    (r arg : List ℕ)
    → All IsShort (components (slash ∷ r))
    → length (slash ∷ r) ≤ 511
    → length arg < 256
    → Leaves (build_path (slash ∷ r) arg) (λ full. IsPath full 511)
path_from r arg names s l = elim (Bool-cases (is_absolute arg)) [
  | inl e ↦
      let (rest, a) = absolute_rest arg e in
      Ends-Leaves (
        arg,
        absolute_path r arg e (omega arith),
        record { rest = rest; absolute = a; short = omega arith; names = components-IsShort arg l },
      )
  | inr e ↦ elim (Bool-cases (ltb (length r + length arg + 2) 512)) [
    | inl b ↦ relative-IsPath r arg names e l (ltb→lt _ _ b)
    | inr b ↦ too_long r arg s e l (ltb_false→le _ _ b)
  ]
]

-- Whatever `build_path` returns is a path.
pub build_path-Leaves :
    (dir arg : List ℕ)
    → IsPath dir 511
    → length arg < 256
    → Leaves (build_path dir arg) (λ full. IsPath full 511)
build_path-Leaves dir arg d l =
    rw d.absolute (path_from d.rest arg (rw d.absolute at d.names) (rw d.absolute at d.short) l)
