-- ===== src/System/Typing.antt =====
-- Keys that are pressed and released behind the prompt.
use Prim.Native.Nat.{bit_and}
use fox_os.Base.{
  ℕ, suc, ◌+◌, ◌<◌, ◌≤◌, ◌≡◌, refl, ap, ◌∙◌, Bool, true, false, List, [], ◌∷◌, ◌++◌, map, Run, ret,
  ◌>>=◌, arith, length, All, replicate, append_assoc, length-append, append-nil, some, none, Option,
  ◌==◌, ne→==, lt→ltb, le→leb, ◌&&◌,
}
use fox_os.Keyboard.{Keyboard, Ports, keyboard_read, handle, char_of}
use fox_os.Keyboard.Press.{IsKey, handle-press}
use fox_os.Keyboard.Stroke.{handle-release}
use fox_os.Keyboard.Wait.{read-handle}
use fox_os.Screen.{Screen}
use fox_os.Screen.Cursor.{OnScreen}
use fox_os.System.{System}
use fox_os.System.Command.{Next, goes_on, waits}
use fox_os.System.Loop.{terminal_run, run_char, rounds}
use fox_os.Terminal.{Line, edit_key, accepts}
use fox_os.Terminal.Edit.{Shows-IsInside, Shows, insert-Shows}
use fox_os.Terminal.Inside.{inserted}
use fox_os.Terminal.Short.{type_short}

-- The text has been typed behind the prompt, and no key is held.
pub record IsTyping (k : System) (shift : Bool) (text : List ℕ) : Type 0 where
  pub on_screen : OnScreen k.screen
  pub line : Shows k.line text []
  pub prompt : k.prompt_length ≡ 7
  pub free : k.keyboard.key_held ≡ false
  pub shifted : k.keyboard.shift_pressed ≡ shift

-- A key whose character goes into the line.
pub record IsPlain (shift : Bool) (s : ℕ) : Type 0 where
  pub key : IsKey s
  pub low : b' ' ≤ char_of shift s
  pub high : char_of shift s ≤ b'~'

-- Each key is pressed and released.
unfoldable pub strokes : List ℕ → List ℕ
strokes [] = []
strokes (s ∷ keys) = s ∷ (s + 0x80) ∷ strokes keys

-- The files are those of the other system, and so is the current directory.
pub record IsBeside (k k' : System) : Type 0 where
  pub files : k'.fs ≡ k.fs
  pub directory : k'.current_dir ≡ k.current_dir

abbrev pub ports : List ℕ → List ℕ → Ports
ports status codes = record { status = status; codes = codes }

accepted :
    (k : System) (text : List ℕ) (c : ℕ)
    → Shows k.line text []
    → b' ' ≤ c
    → c ≤ b'~'
    → length text < 72
    → accepts k.line c ≡ true
accepted k text c v low high short =
    rw (lt→ltb k.line.buffer_pos 255 (omega (arith, v.end)), le→leb b' ' c low, le→leb c b'~' high)
      refl

pub pressed :
    (k : System) {shift : Bool} {text : List ℕ} (s : ℕ)
    → IsTyping k shift text
    → IsKey s
    → handle k.keyboard s
      ≡ (char_of shift s, record k.keyboard { last_scancode = s; key_held = true })
pressed k {shift} s v h =
    handle-press k.keyboard s h
      (not_held (s == k.keyboard.last_scancode) k.keyboard.key_held v.free)
    ∙ ap (λ b. (char_of b s, record k.keyboard { last_scancode = s; key_held = true })) v.shifted
  where
    not_held : (b c : Bool) → c ≡ false → (b && c) ≡ false
    not_held true c e = e
    not_held false c e = refl

module _ (a : ℕ) (idle : (bit_and a 2 == 0) ≡ true) (shift : Bool) where
  read_idle :
      (kb kb' : Keyboard) (x c : ℕ) (status codes : List ℕ)
      → handle kb c ≡ (x, kb')
      → keyboard_read kb (ports (a ∷ status) (c ∷ codes)) ≡ some (x, kb', ports status codes)
  read_idle kb kb' x c status codes h =
      read-handle kb [] a status c codes tt idle ∙ ap (λ r. some (r.0, r.1, ports status codes)) h

  -- A round with the character that the scan code gives.
  pub round_of :
      (k : System) (kb : Keyboard) (x c : ℕ) (status codes : List ℕ)
      → handle k.keyboard c ≡ (x, kb)
      → terminal_run k (ports (a ∷ status) (c ∷ codes))
        ≡ (run_char (record k { keyboard = kb }) x >>= λ n. ret (n, ports status codes))
  unfolding terminal_run
  round_of k kb x c status codes h =
      ap (read_then k (ports (a ∷ status) (c ∷ codes))) (read_idle k.keyboard kb x c status codes h)
    where
      read_then : System → Ports → Option (ℕ × Keyboard × Ports) → Run (Next × Ports)
      read_then k p none = ret (waits, p)
      read_then k p (some (c, kb, p')) =
          run_char (record k { keyboard = kb }) c >>= λ n. ret (n, p')

  silent_round :
      (k : System) (kb : Keyboard) (c : ℕ) (status codes : List ℕ)
      → handle k.keyboard c ≡ (0, kb)
      → terminal_run k (ports (a ∷ status) (c ∷ codes))
        ≡ ret (goes_on (record k { keyboard = kb }), ports status codes)
  unfolding run_char
  silent_round k kb c status codes h = round_of k kb 0 c status codes h

  typing_round :
      (k : System) (kb : Keyboard) (c scan : ℕ) (t : Screen) (l : Line) (status codes : List ℕ)
      → handle k.keyboard scan ≡ (c, kb)
      → b' ' ≤ c
      → edit_key k.screen k.prompt_length k.line c ≡ ret (t, l)
      → terminal_run k (ports (a ∷ status) (scan ∷ codes))
        ≡ ret (goes_on (record k { keyboard = kb; screen = t; line = l }), ports status codes)
  unfolding run_char
  typing_round k kb c scan t l status codes h low e =
      round_of k kb c scan status codes h
      ∙ rw (ne→== c 0 (λ z. omega arith), ne→== c b'\n' (λ z. omega arith), e) refl

  round_goes :
      (n : ℕ) (k k' : System) (p p' : Ports)
      → terminal_run k p ≡ ret (goes_on k', p')
      → rounds (suc n) k p ≡ rounds n k' p'
  unfolding rounds
  round_goes n k k' p p' h = rw h refl

  stroke :
      (k : System) (text : List ℕ) (s : ℕ)
      → IsTyping k shift text
      → IsPlain shift s
      → length text < 72
      → (k' : System) × ((n : ℕ) (status codes : List ℕ)
          → rounds (suc (suc n)) k (ports (a ∷ a ∷ status) (s ∷ (s + 0x80) ∷ codes))
            ≡ rounds n k' (ports status codes))
        × IsTyping k' shift (text ++ (char_of shift s ∷ []))
        × IsBeside k k'
  stroke k text s v p short =
      let c = char_of shift s in
      let kb = record k.keyboard { last_scancode = s; key_held = true } in
      let kb' = record k.keyboard { last_scancode = 0; key_held = false } in
      let takes : accepts k.line c ≡ true = accepted k text c v.line p.low p.high (omega arith) in
      let (t, e, w) =
        type_short k.screen k.prompt_length k.line c v.on_screen takes
          (omega (arith, v.prompt, v.line.end)) (Shows-IsInside k.line text [] v.line) in
      let h : handle k.keyboard s ≡ (c, kb) = pressed k s v p.key in
      let k1 = record k { keyboard = kb; screen = t; line = inserted k.line c } in
      let k2 = record k1 { keyboard = kb' } in
      (
        k2,
        λ n status codes.
            round_goes (suc n) k k1 _ _ (
              typing_round k kb c s t (inserted k.line c) (a ∷ status) ((s + 0x80) ∷ codes) h p.low
                e)
            ∙ round_goes n k1 k2 _ _
                (silent_round k1 kb' (s + 0x80) status codes (handle-release k.keyboard s p.key)),
        record {
          on_screen = w;
          line = insert-Shows k.line text [] c v.line takes (omega arith);
          prompt = v.prompt;
          free = refl;
          shifted = v.shifted;
        },
        record { files = refl; directory = refl },
      )

  -- All the keys, one after the other, before `more` scan codes.
  pub typed_keys :
      (k : System) (text keys more status codes : List ℕ)
      → IsTyping k shift text
      → All (IsPlain shift) keys
      → length text + length keys < 73
      → (k' : System) × (rounds (length (strokes keys ++ more)) k (
            ports
              (replicate (length (strokes keys ++ more)) a ++ status)
              ((strokes keys ++ more) ++ codes))
          ≡ rounds (length more) k' (ports (replicate (length more) a ++ status) (more ++ codes)))
        × IsTyping k' shift (text ++ map (char_of shift) keys)
        × IsBeside k k'
  unfolding strokes
  typed_keys k text [] more status codes v h l =
      (k, refl, rw (append-nil text) v, record { files = refl; directory = refl })
  typed_keys k text (s ∷ keys) more status codes v h l =
      let c = char_of shift s in
      let (k1, e, w, b) = stroke k text s v h.0 (omega arith) in
      let (k', e', w', b') =
        typed_keys k1 (text ++ (c ∷ [])) keys more status codes w h.1
          (omega (arith, length-append text (c ∷ []))) in
      (
        k',
        e _ _ _ ∙ e',
        rw (append_assoc text (c ∷ []) (map (char_of shift) keys)) at w',
        record { files = b'.files ∙ b.files; directory = b'.directory ∙ b.directory },
      )
