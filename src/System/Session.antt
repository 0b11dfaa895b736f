-- ===== src/System/Session.antt =====
-- A command that is typed on the keyboard, and run.
use Prim.Native.Nat.{bit_and}
use fox_os.Base.{
  store-set, ℕ, zero, suc, ◌+◌, ◌-◌, ◌<◌, ◌≤◌, ◌≡◌, refl, ap, ◌∙◌, Bool, true, false, List, [], ◌∷◌,
  ◌++◌, map, Run, ret, ◌>>=◌, arith, length, All, replicate, length-map, fault, ◌==◌, set, ne→==,
}
use fox_os.Keyboard.{Ports, char_of, scancode_to_char, scancode_to_char_shift}
use fox_os.Screen.Cursor.{OnScreen}
use fox_os.Screen.Putchar.{write_OnScreen}
use fox_os.Screen.Printf.Pieces.{putchar-write}
use fox_os.System.{System}
use fox_os.System.Command.{Next, goes_on, off, waits, text_in, execute, execute_command}
use fox_os.System.Loop.{terminal_run, run_char, enter_key, after_command, rounds}
use fox_os.Terminal.Edit.{Shows-room, Shows}
use fox_os.System.Typing.{
  IsTyping, IsPlain, IsBeside, strokes, ports, pressed, round_of, typed_keys,
}

text_in-set :
    (text : List ℕ) (m : ℕ)
    → All (λ c. b' ' ≤ c) text
    → text_in (set (text ++ replicate m 0) (length text) 0) ≡ text
text_in-set [] zero h = refl
text_in-set [] (suc m) h = refl
text_in-set (c ∷ text) m h =
    rw (ne→== c 0 (λ z. omega (arith, h.0))) (ap (λ rest. c ∷ rest) (text_in-set text m h.1))

plain-All :
    (shift : Bool) (keys : List ℕ)
    → All (IsPlain shift) keys
    → All (λ c. b' ' ≤ c) (map (char_of shift) keys)
plain-All shift [] h = tt
plain-All shift (s ∷ keys) h = (h.0.low, plain-All shift keys h.1)

-- The scan code of the key Enter.
abbrev pub enter_code : ℕ
enter_code = 0x1c

enter_char : (shift : Bool) → char_of shift enter_code ≡ b'\n'
unfolding char_of scancode_to_char scancode_to_char_shift
enter_char true = refl
enter_char false = refl

enter_round :
    (a : ℕ) (idle : (bit_and a 2 == 0) ≡ true) (shift : Bool) (k : System) {text : List ℕ}
    (status codes : List ℕ)
    → IsTyping k shift text
    → terminal_run k (ports (a ∷ status) (enter_code ∷ codes)) ≡ (
        enter_key (record k {
          keyboard = record k.keyboard { last_scancode = enter_code; key_held = true };
        })
        >>= λ n. ret (n, ports status codes))
unfolding run_char
enter_round a idle shift k status codes v =
    let kb = record k.keyboard { last_scancode = enter_code; key_held = true } in
    round_of a idle shift k kb b'\n' enter_code status codes (
      pressed k enter_code v (record { press = omega arith; plain = refl })
      ∙ ap (λ c. (c, kb)) (enter_char shift))

last_round :
    (k : System) (p p' : Ports) (r : Run Next)
    → terminal_run k p ≡ (r >>= λ n. ret (n, p'))
    → rounds 1 k p ≡ (r >>= λ n. ret (n, p'))
unfolding rounds
last_round k p p' (ret (goes_on k')) h = rw h refl
last_round k p p' (ret (off k')) h = rw h refl
last_round k p p' (ret waits) h = rw h refl
last_round k p p' fault h = rw h refl

-- The command in the line is executed.
enter_executes :
    (k : System) (text : List ℕ)
    → OnScreen k.screen
    → Shows k.line text []
    → All (λ c. b' ' ≤ c) text
    → 0 < length text
    → (k' : System) × (enter_key k ≡ (execute k' text >>= after_command))
      × OnScreen k'.screen
      × IsBeside k k'
unfolding enter_key execute_command
enter_executes k text v l h some_text =
    let (s, e, w) = write_OnScreen (b'\n' ∷ []) k.screen v in
    let buffer = set k.line.input_buffer k.line.buffer_pos 0 in
    let n : k.line.buffer_pos ≡ length text = omega (arith, l.end) in
    let held : text_in buffer ≡ text =
      rw (l.buffer, n) (text_in-set text (256 - (length text + length {A = ℕ} [])) h) in
    (
      record k { screen = s; line = record k.line { input_buffer = buffer } },
      rw
          (
            putchar-write k.screen b'\n' ∙ e,
            ne→== k.line.buffer_pos 0 (λ z. omega (arith, l.end)),
            store-set k.line.input_buffer k.line.buffer_pos 0 (Shows-room k.line text [] l),
            held,
          )
          refl,
      w,
      record { files = refl; directory = refl },
    )

-- The keys of a command are pressed and released one after the other, and then the key Enter is
-- pressed. As many rounds as there are scan codes bring `terminal_run` to execute the command that
-- was typed, with the same files and the same current directory, and then the prompt. The line is
-- empty before, the status is never busy, no key is held, and the command has 1 to 72 characters.
pub typed_command_runs :
    (a : ℕ) (shift : Bool) (k : System) (keys status codes : List ℕ)
    → (bit_and a 2 == 0) ≡ true
    → IsTyping k shift []
    → All (IsPlain shift) keys
    → 0 < length keys
    → length keys < 73
    → (k' : System) × (rounds (length (strokes keys ++ (enter_code ∷ []))) k (record {
      status = replicate (length (strokes keys ++ (enter_code ∷ []))) a ++ status;
      codes = (strokes keys ++ (enter_code ∷ [])) ++ codes;
    })
        ≡ (execute k' (map (char_of shift) keys) >>= after_command >>= λ next.
            ret (next, record { status = status; codes = codes })))
      × OnScreen k'.screen
      × IsBeside k k'
typed_command_runs a shift k keys status codes idle v h some_key short =
    let (k1, e, w, b) =
      typed_keys a idle shift k [] keys (enter_code ∷ []) status codes v h (omega arith) in
    let (k', e', o, b') =
      enter_executes
        (record k1 {
          keyboard = record k1.keyboard { last_scancode = enter_code; key_held = true };
        })
        (map (char_of shift) keys) w.on_screen w.line (plain-All shift keys h)
        (omega (arith, length-map (char_of shift) keys)) in
    (
      k',
      e
          ∙ last_round k1 _ _ _ (enter_round a idle shift k1 status codes w)
          ∙ ap (λ r. r >>= λ next. ret (next, ports status codes)) e',
      o,
      record { files = b'.files ∙ b.files; directory = b'.directory ∙ b.directory },
    )
