-- ===== src/System/Safe/Enter.antt =====
-- The line feed: the command in the input buffer.
use fox_os.Base.{
  store-set, ℕ, zero, suc, ◌+◌, ◌<◌, ◌≤◌, ◌≡◌, refl, ◌∙◌, inl, inr, true, false, List, [], ◌∷◌,
  Ends, bind-Ends, arith, length, Bool-cases, codes, set, ◌==◌,
}
use fox_os.Screen.Cursor.{OnScreen}
use fox_os.Screen.Putchar.{write_OnScreen}
use fox_os.Screen.Printf.Pieces.{putchar-write}
use fox_os.System.{System}
use fox_os.System.Printing.{Drawn}
use fox_os.System.Command.{text_in, Next, goes_on, off, waits, is_command, execute_command}
use fox_os.System.Loop.{enter_key, after_command, clear_line, terminal_prompt}
use fox_os.System.Safe.{IsReady}
use fox_os.System.Safe.Commands.{wider, Drawn-IsReady}
use fox_os.System.Safe.Execute.{StaysReady, execute-StaysReady}
use fox_os.System.Printing.{print_plain}
use fox_os.Terminal.{Line, terminal_buffer_size}
use fox_os.Terminal.Edit.{Shows, clear-Shows, length-buffer}

pub length-text_in : (b : List ℕ) (i : ℕ) → i < length b → length (text_in (set b i 0)) ≤ i
length-text_in [] i l = absurd (omega arith)
length-text_in (c ∷ b) zero l = omega arith
length-text_in (c ∷ b) (suc i) l = ground (arith, length-text_in b i)

-- The command that a line holds.
abbrev pub command_of : Line → List ℕ
command_of l = text_in (set l.input_buffer l.buffer_pos 0)

-- The buffer has room for the NUL behind the line.
pub record IsLine (l : Line) : Type 0 where
  pub size : length l.input_buffer ≡ terminal_buffer_size
  pub room : l.buffer_pos < terminal_buffer_size

pub Shows-IsLine : (l : Line) (a b : List ℕ) → Shows l a b → IsLine l
Shows-IsLine l a b v = record { size = length-buffer l a b v; room = omega (arith, v.end, v.room) }

-- Ready, and nothing stands in the line, or the command was `exit`.
abbrev pub StaysClear : List ℕ → ℕ → Next → Type 0
StaysClear cmd n (goes_on k) = IsReady k n × Shows k.line [] []
StaysClear cmd n (off k) = is_command cmd (codes "exit") ≡ true
StaysClear cmd n waits = ⊥

module _ (n : ℕ) (room : n + 257 ≤ 512) where
  execute_command-StaysReady :
      (k : System)
      → IsReady k n
      → IsLine k.line
      → is_command (command_of k.line) (codes "test-formatting") ≡ false
      → Ends (execute_command k) (StaysReady (command_of k.line) (n + 256))
  unfolding execute_command
  execute_command-StaysReady k v l t = elim (Bool-cases (k.line.buffer_pos == 0)) [
    | inl e ↦ (goes_on k, rw e refl, wider (omega arith) v)
    | inr e ↦
        rw (e, store-set k.line.input_buffer k.line.buffer_pos 0 (omega (arith, l.size, l.room)))
          (execute-StaysReady n room
            (record k {
              line = record k.line { input_buffer = set k.line.input_buffer k.line.buffer_pos 0 };
            })
            (command_of k.line)
            (record { on_screen = v.on_screen; sound = v.sound; directory = v.directory })
            (omega (arith, length-text_in k.line.input_buffer k.line.buffer_pos, l.size, l.room)) t)
  ]

drawn_line : (k k' : System) → Drawn (clear_line k) k' → Shows k'.line [] []
drawn_line k k' (s, e, w) = rw e (clear-Shows k.line)

pub after-StaysClear :
    (cmd : List ℕ) (n : ℕ) (next : Next)
    → StaysReady cmd n next
    → Ends (after_command next) (StaysClear cmd n)
after-StaysClear cmd n (goes_on k) v =
    let w : IsReady (clear_line k) n = record {
      on_screen = v.on_screen;
      sound = v.sound;
      directory = v.directory;
    } in
    let (k', e, d) = print_plain (clear_line k) terminal_prompt v.on_screen refl in
    (goes_on k', rw e refl, (Drawn-IsReady w d, drawn_line k k' d))
after-StaysClear cmd n (off k) v = (off k, refl, v)
after-StaysClear cmd n waits v = absurd v

-- The line feed is handled without a fault, whatever the line holds but `test-formatting`, if the
-- cursor is on the screen, the table has 256 entries of which at least one and at most 256 are in
-- use and whose names in use are shorter than 256, the current directory is an absolute path of at most 255 bytes whose
-- names are shorter than 256, and the buffer has 256 bytes with room for the NUL behind the line.
-- Either the terminal goes on, and the same holds of the screen, the table and the current
-- directory, which may be 256 bytes longer, and the line is empty; or the power is off, and then the
-- line held `exit`.
pub enter_safe :
    (k : System) (n : ℕ)
    → n ≤ 255
    → IsReady k n
    → IsLine k.line
    → is_command (command_of k.line) (codes "test-formatting") ≡ false
    → Ends (enter_key k) (StaysClear (command_of k.line) (n + 256))
unfolding enter_key
enter_safe k n l v line t =
    let (s, e, w) = write_OnScreen (b'\n' ∷ []) k.screen v.on_screen in
    bind-Ends {P = λ s'. OnScreen s'} (s, putchar-write k.screen b'\n' ∙ e, w)
      (λ s' w'.
        bind-Ends
          (execute_command-StaysReady n (omega arith) (record k { screen = s' })
            (record { on_screen = w'; sound = v.sound; directory = v.directory }) line t)
          (λ next r. after-StaysClear (command_of k.line) (n + 256) next r))
