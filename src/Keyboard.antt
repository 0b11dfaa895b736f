-- ===== src/Keyboard.antt =====
-- src/keyboard.c. What `inb` returns is an input: the values of the successive reads of port 0x64
-- and of port 0x60, each in its order. The flags `shift_pressed` and `key_held`, 0 or 1, are `Bool`.
pub mod Press
pub mod Stroke
pub mod Chars
pub mod Wait
pub mod Tests
use Prim.Native.Nat.{bit_and, bit_or}
use fox_os.Base.{
  ℕ, zero, suc, Bool, true, false, ◌&&◌, ◌||◌, List, [], ◌∷◌, ◌++◌, Option, none, some, ltb, ◌==◌,
  if◌then◌else◌, length, get_or, codes,
}

abbrev pub key_lshift : ℕ
key_lshift = 0x2a

abbrev pub key_rshift : ℕ
key_rshift = 0x36

abbrev pub key_up : ℕ
key_up = 0x48

abbrev pub key_down : ℕ
key_down = 0x50

abbrev pub key_left : ℕ
key_left = 0x4b

abbrev pub key_right : ℕ
key_right = 0x4d

abbrev pub key_delete : ℕ
key_delete = 0x53

abbrev pub char_up : ℕ
char_up = 1

abbrev pub char_down : ℕ
char_down = 2

abbrev pub char_left : ℕ
char_left = 3

abbrev pub char_right : ℕ
char_right = 4

abbrev pub char_del : ℕ
char_del = 5

unfoldable pub scancode_to_char : List ℕ
scancode_to_char =
    0
    ∷ 0
    ∷ (codes "1234567890-="
        ++ (8
            ∷ 9
            ∷ (codes "qwertyuiop[]"
                ++ (10
                    ∷ 0
                    ∷ (codes "asdfghjkl;"
                        ++ (39
                            ∷ 96
                            ∷ 0
                            ∷ 92
                            ∷ (codes "zxcvbnm,./" ++ (0 ∷ b'*' ∷ 0 ∷ b' ' ∷ []))))))))

unfoldable pub scancode_to_char_shift : List ℕ
scancode_to_char_shift =
    0
    ∷ 0
    ∷ (codes "!@#$%^&*()_+"
        ++ (8
            ∷ 9
            ∷ (codes "QWERTYUIOP{}"
                ++ (10
                    ∷ 0
                    ∷ (codes "ASDFGHJKL:"
                        ++ (34
                            ∷ b'~'
                            ∷ 0
                            ∷ b'|'
                            ∷ (codes "ZXCVBNM<>?" ++ (0 ∷ b'*' ∷ 0 ∷ b' ' ∷ []))))))))

-- The statics, those of `keyboard_read` too.
pub record Keyboard : Type 0 where
  pub shift_pressed : Bool
  pub last_scancode : ℕ
  pub key_held : Bool

-- The `switch` of `keyboard_read`.
unfoldable pub char_of : Bool → ℕ → ℕ
char_of shift_pressed scancode =
    if scancode == key_up
    then char_up
    else if scancode == key_down
    then char_down
    else if scancode == key_left
    then char_left
    else if scancode == key_right
    then char_right
    else if scancode == key_delete
    then char_del
    else if ltb scancode (length scancode_to_char)
    then (if shift_pressed
        then get_or scancode_to_char_shift scancode 0
        else get_or scancode_to_char scancode 0)
    else 0

abbrev pub is_shift : ℕ → Bool
is_shift scancode = (scancode == key_lshift) || (scancode == key_rshift)

abbrev pub is_shift_release : ℕ → Bool
is_shift_release scancode =
    (scancode == bit_or key_lshift 0x80) || (scancode == bit_or key_rshift 0x80)

-- `keyboard_read` once the scan code has been read.
unfoldable pub handle : Keyboard → ℕ → ℕ × Keyboard
handle kb scancode =
    if is_shift scancode
    then (0, record kb { shift_pressed = true })
    else if is_shift_release scancode
    then (0, record kb { shift_pressed = false })
    else if bit_and scancode 0x80 == 0
    then (if (scancode == kb.last_scancode) && kb.key_held then (0, kb) else (
      char_of kb.shift_pressed scancode,
      record kb { last_scancode = scancode; key_held = true },
    ))
    else if bit_and scancode 0x7f == kb.last_scancode
    then (0, record kb { last_scancode = 0; key_held = false })
    else (0, kb)

-- The reads of a port that are still to come.
pub record Ports : Type 0 where
  pub status : List ℕ
  pub codes : List ℕ

-- `while (inb(0x64) & 2);` `none`: with the reads given, the loop has not ended.
unfoldable pub keyboard_wait : List ℕ → Option (List ℕ)
keyboard_wait [] = none
keyboard_wait (s ∷ status) =
    let rest = keyboard_wait status in if bit_and s 2 == 0 then some status else rest

abbrev pub next_code : List ℕ → List ℕ → Option (ℕ × Ports)
next_code status [] = none
next_code status (c ∷ rest) = some (c, record { status = status; codes = rest })

unfoldable pub keyboard_get_scancode : Ports → Option (ℕ × Ports)
keyboard_get_scancode p = elim (keyboard_wait p.status) [
  | none ↦ none
  | some status ↦ next_code status p.codes
]

-- `while (inb(0x64) & 1) inb(0x60);`
unfoldable pub keyboard_init_from : List ℕ → List ℕ → Option Ports
keyboard_init_from [] codes = none
keyboard_init_from (s ∷ status) [] =
    if bit_and s 1 == 0 then some (record { status = status; codes = [] }) else none
keyboard_init_from (s ∷ status) (c ∷ codes) =
    let rest = keyboard_init_from status codes in
    if bit_and s 1 == 0 then some (record { status = status; codes = c ∷ codes }) else rest

unfoldable pub keyboard_init : Ports → Option Ports
keyboard_init p = keyboard_init_from p.status p.codes

unfoldable pub keyboard_read : Keyboard → Ports → Option (ℕ × Keyboard × Ports)
keyboard_read kb p = elim (keyboard_get_scancode p) [
  | none ↦ none
  | some (scancode, p') ↦ let r = handle kb scancode in some (r.0, r.1, p')
]
