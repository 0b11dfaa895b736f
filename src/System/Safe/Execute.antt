-- ===== src/System/Safe/Execute.antt =====
-- Whatever command is typed.
use fox_os.Base.{
  ℕ, ◌+◌, ◌%◌, ◌<◌, ◌≤◌, ◌≡◌, refl, inl, inr, true, false, List, [], ◌∷◌, Run, Ends, bind-Ends,
  arith, length, All, Bool-cases, codes,
}
use fox_os.Screen.{vga_set_color}
use fox_os.Screen.Cursor.{vga_clear_lem}
use fox_os.Screen.Printf.{Arg}
use fox_os.System.{System}
use fox_os.System.Printing.{no_percent}
use fox_os.System.Output.{
  print_all, help_lines, help, clear_screen, test_colors, print_colors, colors, version, next_color,
  pwd, unknown, set_color,
}
use fox_os.System.Command.{Next, goes_on, off, waits, is_command, begins, on, execute_file, execute}
use fox_os.System.Safe.{IsReady}
use fox_os.System.Safe.Commands.{say, say_text, wider, mkdir-IsReady, rm-IsReady, touch-IsReady}
use fox_os.System.Safe.Directories.{ls-IsReady, cd-IsReady}

-- Every format is printed without an argument, and without a percent sign.
IsPlain : List ℕ × List Arg → Type 0
IsPlain (format, args) = (no_percent format ≡ true) × (args ≡ [])

print_all-IsReady :
    (k : System) (n : ℕ) (calls : List (List ℕ × List Arg))
    → IsReady k n
    → All IsPlain calls
    → Ends (print_all k calls) (λ k'. IsReady k' n)
unfolding print_all IsPlain
print_all-IsReady k n [] v a = (k, refl, v)
print_all-IsReady k n ((format, args) ∷ calls) v a =
    rw a.0.1 (bind-Ends (say k n format v a.0.0) (λ k' w. print_all-IsReady k' n calls w a.1))

help-IsReady : (k : System) (n : ℕ) → IsReady k n → Ends (help k) (λ k'. IsReady k' n)
unfolding help IsPlain
help-IsReady k n v = print_all-IsReady k n help_lines v (
  (refl, refl),
  (
    (refl, refl),
    (
      (refl, refl),
      (
        (refl, refl),
        (
          (refl, refl),
          (
            (refl, refl),
            ((refl, refl), ((refl, refl), ((refl, refl), ((refl, refl), ((refl, refl), tt))))),
          ),
        ),
      ),
    ),
  ),
)

set_color-IsReady : (k : System) (n c : ℕ) → IsReady k n → IsReady (set_color k c) n
unfolding vga_set_color
set_color-IsReady k n c v =
    let (x, y, w) = v.on_screen in
    record {
      on_screen = (
        x,
        y,
        record { at_x = w.at_x; at_y = w.at_y; in_x = w.in_x; in_y = w.in_y; size = w.size },
      );
      sound = v.sound;
      directory = v.directory;
    }

print_colors-IsReady :
    (k : System) (n : ℕ) (cs : List (ℕ × List ℕ))
    → IsReady k n
    → All (λ c. no_percent c.1 ≡ true) cs
    → Ends (print_colors k cs) (λ k'. IsReady k' n)
unfolding print_colors
print_colors-IsReady k n [] v a = (k, refl, v)
print_colors-IsReady k n ((c, name) ∷ cs) v a =
    bind-Ends (say (set_color k c) n name (set_color-IsReady k n c v) a.0)
      (λ k' w. print_colors-IsReady k' n cs w a.1)

test_colors-IsReady : (k : System) (n : ℕ) → IsReady k n → Ends (test_colors k) (λ k'. IsReady k' n)
unfolding test_colors
test_colors-IsReady k n v = bind-Ends (say k n (codes "\nAvailable colors:\n") v refl) (λ k' w.
    print_colors-IsReady k' n colors w (refl, (refl, (refl, (refl, (refl, (refl, (refl, tt))))))))

clear_screen-IsReady :
    (k : System) (n : ℕ) → IsReady k n → Ends (clear_screen k) (λ k'. IsReady k' n)
unfolding clear_screen
clear_screen-IsReady k n v =
    let (x, y, at) = v.on_screen in
    let (s, e, w) = vga_clear_lem k.screen at.size in
    (
      record k { screen = s },
      rw e refl,
      record { on_screen = (0, 0, w); sound = v.sound; directory = v.directory },
    )

next_color-IsReady : (k : System) (n : ℕ) → IsReady k n → IsReady (next_color k) n
unfolding next_color
next_color-IsReady k n v =
    let w = set_color-IsReady k n ((k.current_color + 1) % 16) v in
    record { on_screen = w.on_screen; sound = w.sound; directory = w.directory }

unknown-IsReady :
    (k : System) (n : ℕ) (cmd : List ℕ) → IsReady k n → Ends (unknown k cmd) (λ k'. IsReady k' n)
unfolding unknown
unknown-IsReady k n cmd v = say_text k n (codes "Unknown command: ") (codes "\n") cmd v refl refl

version-IsReady : (k : System) (n : ℕ) → IsReady k n → Ends (version k) (λ k'. IsReady k' n)
unfolding version
version-IsReady k n v = say k n (codes "FoxOS v0.1\n") v refl

pwd-IsReady : (k : System) (n : ℕ) → IsReady k n → Ends (pwd k) (λ k'. IsReady k' n)
unfolding pwd
pwd-IsReady k n v = say_text k n [] (codes "\n") k.current_dir v refl refl

-- What holds after a command: the system is ready, or the command was `exit`.
abbrev pub StaysReady : List ℕ → ℕ → Next → Type 0
StaysReady cmd n (goes_on k) = IsReady k n
StaysReady cmd n (off k) = is_command cmd (codes "exit") ≡ true
StaysReady cmd n waits = ⊥

on-StaysReady :
    {r : Run System} (cmd : List ℕ) {n m : ℕ}
    → n ≤ m
    → Ends r (λ k. IsReady k n)
    → Ends (on r) (StaysReady cmd m)
on-StaysReady cmd {m = m} l (k, e, v) = (goes_on k, rw e refl, wider l v)

module _ (n : ℕ) (room : n + 257 ≤ 512) where
  execute_file-IsReady :
      (k : System) (cmd : List ℕ)
      → IsReady k n
      → length cmd < 256
      → Ends (execute_file k cmd) (λ k'. IsReady k' (n + 256))
  unfolding execute_file
  execute_file-IsReady k cmd v l = elim (Bool-cases (begins cmd (codes "ls") 2)) [
    | inl a ↦ let (k', e, w) = ls-IsReady n room k cmd v l in rw a (k', e, wider (omega arith) w)
    | inr a ↦ elim (Bool-cases (begins cmd (codes "cd") 2)) [
      | inl b ↦ rw (a, b) (cd-IsReady n room k cmd v l)
      | inr b ↦ elim (Bool-cases (begins cmd (codes "mkdir") 5)) [
        | inl c ↦ rw (a, b, c) (mkdir-IsReady n room k cmd v l)
        | inr c ↦ elim (Bool-cases (begins cmd (codes "touch") 5)) [
          | inl d ↦ rw (a, b, c, d) (touch-IsReady n room k cmd v l)
          | inr d ↦ elim (Bool-cases (begins cmd (codes "rm") 2)) [
            | inl f ↦ rw (a, b, c, d, f) (rm-IsReady n room k cmd v l)
            | inr f ↦
                let (k', e, w) = unknown-IsReady k n cmd v in
                rw (a, b, c, d, f) (k', e, wider (omega arith) w)
          ]
        ]
      ]
    ]
  ]

  pub execute-StaysReady :
      (k : System) (cmd : List ℕ)
      → IsReady k n
      → length cmd < 256
      → is_command cmd (codes "test-formatting") ≡ false
      → Ends (execute k cmd) (StaysReady cmd (n + 256))
  unfolding execute
  execute-StaysReady k cmd v l t = elim (Bool-cases (is_command cmd (codes "help"))) [
    | inl a ↦ rw a (on-StaysReady cmd (omega arith) (help-IsReady k n v))
    | inr a ↦ elim (Bool-cases (is_command cmd (codes "clear"))) [
      | inl b ↦ rw (a, b) (on-StaysReady cmd (omega arith) (clear_screen-IsReady k n v))
      | inr b ↦ elim (Bool-cases (is_command cmd (codes "exit"))) [
        | inl c ↦
            let (k', e, w) = say k n (codes "Exiting FoxOS...\n") v refl in
            (off k', rw (a, b, c, e) refl, c)
        | inr c ↦ elim (Bool-cases (is_command cmd (codes "test-colors"))) [
          | inl d ↦ rw (a, b, c, t, d) (on-StaysReady cmd (omega arith) (test_colors-IsReady k n v))
          | inr d ↦ elim (Bool-cases (is_command cmd (codes "version"))) [
            | inl f ↦
                rw (a, b, c, t, d, f) (on-StaysReady cmd (omega arith) (version-IsReady k n v))
            | inr f ↦ elim (Bool-cases (is_command cmd (codes "color"))) [
              | inl g ↦ (
                goes_on (next_color k),
                rw (a, b, c, t, d, f, g) refl,
                wider (omega arith) (next_color-IsReady k n v),
              )
              | inr g ↦ elim (Bool-cases (is_command cmd (codes "pwd"))) [
                | inl h ↦
                    rw (a, b, c, t, d, f, g, h)
                      (on-StaysReady cmd (omega arith) (pwd-IsReady k n v))
                | inr h ↦
                    rw (a, b, c, t, d, f, g, h)
                      (on-StaysReady cmd (omega arith) (execute_file-IsReady k cmd v l))
              ]
            ]
          ]
        ]
      ]
    ]
  ]
