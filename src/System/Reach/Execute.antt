-- ===== src/System/Reach/Execute.antt =====
-- Every command, and the line feed.
use fox_os.Base.{
  store-set, ℕ, ◌<◌, ◌==◌, List, [], ◌∷◌, Run, Leaves, bind-Leaves, then-Leaves, ret-Leaves,
  if-Leaves, arith, length, codes, set,
}
use fox_os.Screen.{vga_clear, vga_putchar}
use fox_os.Screen.Printf.{Arg}
use fox_os.System.{System}
use fox_os.System.Command.{
  Next, goes_on, off, waits, is_command, begins, on, execute_file, execute, execute_command,
}
use fox_os.System.Loop.{enter_key, after_command, clear_line, terminal_prompt}
use fox_os.System.Output.{
  print_all, help_lines, help, clear_screen, formats, test_formatting, set_color, print_colors,
  colors, test_colors, version, next_color, pwd, unknown,
}
use fox_os.System.Reach.{IsSafe, print-IsSafe, print-Leaves}
use fox_os.System.Reach.Commands.{ls-Leaves, cd-Leaves, mkdir-Leaves, touch-Leaves, rm-Leaves}
use fox_os.System.Safe.Enter.{IsLine, command_of, length-text_in}
use fox_os.Terminal.Edit.{Shows, clear-Shows}

print_all-Leaves :
    (k : System) (calls : List (List ℕ × List Arg)) → IsSafe k → Leaves (print_all k calls) IsSafe
unfolding print_all
print_all-Leaves k [] v = ret-Leaves v
print_all-Leaves k ((format, args) ∷ calls) v =
    bind-Leaves (print-IsSafe k format args v) (λ k' w. print_all-Leaves k' calls w)

print_colors-Leaves :
    (k : System) (cs : List (ℕ × List ℕ)) → IsSafe k → Leaves (print_colors k cs) IsSafe
unfolding print_colors
print_colors-Leaves k [] v = ret-Leaves v
print_colors-Leaves k ((c, name) ∷ cs) v =
    bind-Leaves (print-IsSafe (set_color k c) name [] v) (λ k' w. print_colors-Leaves k' cs w)

test_colors-Leaves : (k : System) → IsSafe k → Leaves (test_colors k) IsSafe
unfolding test_colors
test_colors-Leaves k v =
    bind-Leaves (print-IsSafe k _ [] v) (λ k' w. print_colors-Leaves k' colors w)

execute_file-Leaves :
    (k : System) (cmd : List ℕ) → length cmd < 256 → IsSafe k → Leaves (execute_file k cmd) IsSafe
unfolding execute_file unknown
execute_file-Leaves k cmd l v = if-Leaves (begins cmd (codes "ls") 2) (ls-Leaves k cmd v) (
    if-Leaves (begins cmd (codes "cd") 2) (cd-Leaves k cmd l v) (
      if-Leaves (begins cmd (codes "mkdir") 5) (mkdir-Leaves k cmd l v) (
        if-Leaves (begins cmd (codes "touch") 5) (touch-Leaves k cmd l v)
          (if-Leaves (begins cmd (codes "rm") 2) (rm-Leaves k cmd l v) (print-IsSafe k _ _ v)))))

-- What holds once a command has run, if the kernel goes on.
abbrev pub IsNext {κ} : (System → Type κ) → Next → Type κ
IsNext P (goes_on k) = P k
IsNext P (off k) = Unit
IsNext P waits = Unit

on-Leaves : {r : Run System} → Leaves r IsSafe → Leaves (on r) (IsNext IsSafe)
on-Leaves h = bind-Leaves h (λ k v. ret-Leaves v)

execute-Leaves :
    (k : System) (cmd : List ℕ)
    → length cmd < 256
    → IsSafe k
    → Leaves (execute k cmd) (IsNext IsSafe)
unfolding execute help test_formatting version pwd clear_screen next_color
execute-Leaves k cmd l v =
    if-Leaves (is_command cmd (codes "help")) (on-Leaves (print_all-Leaves k help_lines v)) (
      if-Leaves (is_command cmd (codes "clear"))
        (on-Leaves (then-Leaves (vga_clear k.screen) (λ s. ret-Leaves v)))
        (if-Leaves (is_command cmd (codes "exit"))
          (bind-Leaves (print-IsSafe k _ [] v) (λ k' w. ret-Leaves tt))
          (if-Leaves (is_command cmd (codes "test-formatting"))
            (on-Leaves (print_all-Leaves k formats v))
            (if-Leaves (is_command cmd (codes "test-colors")) (on-Leaves (test_colors-Leaves k v)) (
              if-Leaves (is_command cmd (codes "version")) (on-Leaves (print-IsSafe k _ [] v)) (
                if-Leaves (is_command cmd (codes "color")) (ret-Leaves v) (
                  if-Leaves (is_command cmd (codes "pwd")) (on-Leaves (print-IsSafe k _ _ v))
                    (on-Leaves (execute_file-Leaves k cmd l v)))))))))

-- Safe, and nothing stands in the line.
abbrev pub IsCleared : System → Type 0
IsCleared k = IsSafe k × Shows k.line [] []

after-Leaves : (next : Next) → IsNext IsSafe next → Leaves (after_command next) (IsNext IsCleared)
after-Leaves (goes_on k) v =
    bind-Leaves
      (print-Leaves (clear_line k) terminal_prompt [] IsCleared (λ s. (v, clear-Shows k.line)))
      (λ k' w. ret-Leaves w)
after-Leaves (off k) v = ret-Leaves tt
after-Leaves waits v = ret-Leaves tt

execute_command-Leaves :
    (k : System) → IsLine k.line → IsSafe k → Leaves (execute_command k) (IsNext IsSafe)
unfolding execute_command
execute_command-Leaves k l v = if-Leaves (k.line.buffer_pos == 0) (ret-Leaves v) (
    rw (store-set k.line.input_buffer k.line.buffer_pos 0 (omega (arith, l.size, l.room))) (
      execute-Leaves
        (record k {
          line = record k.line { input_buffer = set k.line.input_buffer k.line.buffer_pos 0 };
        })
        (command_of k.line)
        (omega (arith, length-text_in k.line.input_buffer k.line.buffer_pos, l.size, l.room)) v))

pub enter-Leaves : (k : System) → IsLine k.line → IsSafe k → Leaves (enter_key k) (IsNext IsCleared)
unfolding enter_key
enter-Leaves k l v = then-Leaves (vga_putchar k.screen b'\n') (λ s.
    bind-Leaves (execute_command-Leaves (record k { screen = s }) l v)
      (λ next w. after-Leaves next w))
