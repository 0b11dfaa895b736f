-- ===== src/System/FirstCommand.antt =====
-- The first command that is typed after the start.
use Prim.Native.Nat.{bit_and}
use fox_os.Base.{
  ℕ, ◌+◌, ◌<◌, ◌≤◌, ◌≡◌, refl, ap, ◌∙◌, true, false, List, [], ◌∷◌, ◌++◌, map, Run, ret, ◌>>=◌,
  Ends, bind-Ends, arith, length, length-map, All, replicate, ◌==◌, codes,
}
use fox_os.Fs.Table.Inv.{IsTable}
use fox_os.Keyboard.{Ports, char_of}
use fox_os.Keyboard.Wait.{IsFull}
use fox_os.Screen.{vga_size}
use fox_os.Screen.Cursor.{OnScreen}
use fox_os.System.{System}
use fox_os.System.Command.{Next, is_command, execute}
use fox_os.System.Loop.{after_command, rounds, start_and_run, run_on}
use fox_os.System.Safe.{IsReady}
use fox_os.System.Safe.Enter.{StaysClear, after-StaysClear}
use fox_os.System.Safe.Execute.{execute-StaysReady}
use fox_os.System.Session.{enter_code, typed_command_runs}
use fox_os.System.Start.{IsStarted, start_ends}
use fox_os.System.Typing.{IsTyping, IsPlain, IsBeside, strokes}

started-IsTyping :
    (k k' : System)
    → k.keyboard.key_held ≡ false
    → IsStarted k.keyboard k'
    → IsTyping k' k.keyboard.shift_pressed []
started-IsTyping k k' free v = record {
  on_screen = v.ready.on_screen;
  line = v.line;
  prompt = v.prompt;
  free = ap (λ b. b.key_held) v.keyboard ∙ free;
  shifted = ap (λ b. b.shift_pressed) v.keyboard;
}

beside-IsReady :
    (k k' : System) (n : ℕ) → IsReady k n → OnScreen k'.screen → IsBeside k k' → IsReady k' n
beside-IsReady k k' n v w b = record {
  on_screen = w;
  sound = rw b.files v.sound;
  directory = rw b.directory v.directory;
}

-- A command of a ready system, and the prompt after it.
command-StaysClear :
    (k : System) (n : ℕ) (cmd : List ℕ)
    → n ≤ 255
    → IsReady k n
    → length cmd < 256
    → is_command cmd (codes "test-formatting") ≡ false
    → Ends (execute k cmd >>= after_command) (StaysClear cmd (n + 256))
command-StaysClear k n cmd l v short t =
    bind-Ends (execute-StaysReady n (omega arith) k cmd v short t)
      (λ next r. after-StaysClear cmd (n + 256) next r)

-- The result of a round, with the ports.
abbrev Clears : List ℕ → ℕ → Ports → Next × Ports → Type 0
Clears cmd n p r = (next : Next) × (r ≡ (next, p)) × StaysClear cmd n next

with_ports :
    (r : Run Next) (cmd : List ℕ) (n : ℕ) (p : Ports)
    → Ends r (StaysClear cmd n)
    → Ends (r >>= λ next. ret (next, p)) (Clears cmd n p)
with_ports r cmd n p (next, e, v) =
    ((next, p), ap (λ z. z >>= λ next. ret (next, p)) e, (next, refl, v))

-- The scan codes of a command and the key Enter.
abbrev pub typed : List ℕ → List ℕ
typed keys = strokes keys ++ (enter_code ∷ [])

run_started :
    (k k' : System) (a : ℕ) (keys status codes' : List ℕ)
    → (bit_and a 2 == 0) ≡ true
    → k.keyboard.key_held ≡ false
    → IsStarted k.keyboard k'
    → All (IsPlain k.keyboard.shift_pressed) keys
    → 0 < length keys
    → length keys < 73
    → is_command (map (char_of k.keyboard.shift_pressed) keys) (codes "test-formatting") ≡ false
    → Ends
        (rounds (length (typed keys)) k' (record {
          status = replicate (length (typed keys)) a ++ status;
          codes = typed keys ++ codes';
        }))
        (Clears
          (map (char_of k.keyboard.shift_pressed) keys)
          257
          (record { status = status; codes = codes' }))
run_started k k' a keys status codes' idle free v plain some_key short t =
    let shift = k.keyboard.shift_pressed in
    let (k1, e, w, b) =
      typed_command_runs a shift k' keys status codes' idle (started-IsTyping k k' free v) plain
        some_key short in
    rw e (
      with_ports (execute k1 (map (char_of shift) keys) >>= after_command)
        (map (char_of shift) keys) 257 (record { status = status; codes = codes' })
        (command-StaysClear k1 1 (map (char_of shift) keys) (omega arith)
          (beside-IsReady k' k1 1 v.ready w b) (omega (arith, length-map (char_of shift) keys)) t))

-- From power-on to the first command: `_start` comes to its loop, and as many rounds of it as there
-- are scan codes read a command and the key Enter, run the command and print the prompt, with no
-- fault, whatever was in video memory and in the array of files. Afterwards either the cursor is on
-- the screen, the table has 256 entries of which at least one and at most 256 are in use and whose
-- names in use are shorter than 256, the current directory is an absolute path of at most 257 bytes
-- whose names are shorter than 256 and the line is empty, or the power is off, and then the command was `exit`. Before, the
-- screen has its 2000 cells, the table has 256 entries whose files have their 4096 bytes of content,
-- the current directory is `/` and no key is held. Each key of the command makes a printable
-- character. The command has 1 to 72 characters and is not `test-formatting`. The ports are those of two
-- `keyboard_init` that end, and the status is not busy afterwards.
pub first_command :
    (k : System) (full full' : List ℕ) (s s' a : ℕ)
    → (dropped dropped' keys status codes' : List ℕ) → length k.screen.cells ≡ vga_size
    → IsTable k.fs.files
    → k.current_dir ≡ codes "/"
    → All IsFull full
    → (bit_and s 1 == 0) ≡ true
    → length dropped ≡ length full
    → All IsFull full'
    → (bit_and s' 1 == 0) ≡ true
    → length dropped' ≡ length full'
    → (bit_and a 2 == 0) ≡ true
    → k.keyboard.key_held ≡ false
    → All (IsPlain k.keyboard.shift_pressed) keys
    → 0 < length keys
    → length keys < 73
    → is_command (map (char_of k.keyboard.shift_pressed) keys) (codes "test-formatting") ≡ false
    → Ends
        (start_and_run (length (typed keys)) k (record {
          status = full ++ (s ∷ (full' ++ (s' ∷ (replicate (length (typed keys)) a ++ status))));
          codes = dropped ++ (dropped' ++ (typed keys ++ codes'));
        }))
        (λ r.
          (next : Next) × (r ≡ (next, record { status = status; codes = codes' }))
          × StaysClear (map (char_of k.keyboard.shift_pressed) keys) 257 next)
unfolding start_and_run
first_command k full full' s s' a dropped dropped' keys status codes' cells table dir f e d f' e' d'
      idle free plain some_key short t =
    bind-Ends
      (start_ends k full full' s s' (replicate (length (typed keys)) a ++ status) dropped dropped'
        (typed keys ++ codes') cells table dir f e d f' e' d')
      (λ r (k', eq, v).
        let (end, g, q) =
          run_started k k' a keys status codes' idle free v plain some_key short t in
        (end, ap (run_on (length (typed keys))) eq ∙ g, q))
