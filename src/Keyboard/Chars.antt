-- ===== src/Keyboard/Chars.antt =====
-- The characters that the keyboard gives.
use fox_os.Base.{
  ℕ, ◌<◌, ◌≤◌, ◌≡◌, ◌≢◌, ◌⊎◌, refl, Bool, true, false, ◌&&◌, ◌||◌, not, ◌==◌, ltb, leb, arith,
  Bool-cases, inl, inr, ◌-◌, all_below, all_below_sound,
}
use fox_os.Keyboard.{
  Keyboard, key_up, key_down, key_left, key_right, key_delete, char_of, handle, scancode_to_char,
  scancode_to_char_shift,
}

abbrev pub is_lower : ℕ → Bool
is_lower c = leb b'a' c && leb c b'z'

abbrev pub is_printable : ℕ → Bool
is_printable c = leb b' ' c && leb c b'~'

-- The scan codes of the arrows and of the delete key.
abbrev pub is_arrow : ℕ → Bool
is_arrow s =
    (s == key_up) || (s == key_down) || (s == key_left) || (s == key_right) || (s == key_delete)

-- Every character of the keyboard: none, a control character of the terminal, or a printable one.
abbrev pub is_key_char : ℕ → Bool
is_key_char c = leb c 5 || (leb 8 c && leb c 10) || is_printable c

-- What the tables are checked for, at one scan code.
abbrev fits : Bool → ℕ → Bool
fits shift s =
    is_key_char (char_of shift s)
    && ((char_of shift s == 0) || ltb 5 (char_of shift s) || is_arrow s)

chars_table : (shift : Bool) → all_below 0x100 (fits shift) ≡ true
unfolding char_of scancode_to_char scancode_to_char_shift all_below
chars_table true = refl
chars_table false = refl

-- What is given is nothing or the character of the key.
handle-cases :
    (kb : Keyboard) (s : ℕ) → ((handle kb s).0 ≡ 0) ⊎ ((handle kb s).0 ≡ char_of kb.shift_pressed s)
unfolding handle
handle-cases kb s = ground arith

Fits : ℕ → Bool → Type 0
Fits c arrow = (is_key_char c ≡ true) × (c ≢ 0 → c ≤ 5 → arrow ≡ true)

Fits-sound :
    (c : ℕ) (arrow : Bool) → (is_key_char c && ((c == 0) || ltb 5 c || arrow)) ≡ true → Fits c arrow
unfolding Fits
Fits-sound c arrow h = elim (Bool-cases (is_key_char c)) [
  | inl e ↦ (e, λ n l. ground arith)
  | inr e ↦ absurd (cc (rw e at h))
]

-- `keyboard_read` gives, for every byte that it can read, no character, one of the codes 1 to 5, a
-- backspace, a tab, a line feed or a printable ASCII character; and a code from 1 to 5 only for an
-- arrow or the delete key.
pub handle_chars :
    (kb : Keyboard) (s : ℕ)
    → s < 0x100
    → (is_key_char (handle kb s).0 ≡ true)
      × ((handle kb s).0 ≢ 0 → (handle kb s).0 ≤ 5 → is_arrow s ≡ true)
unfolding Fits
handle_chars kb s h = elim (handle-cases kb s) [
  | inl e ↦ rw e (Fits-sound 0 (is_arrow s) refl)
  | inr e ↦ rw e (
      Fits-sound (char_of kb.shift_pressed s) (is_arrow s)
        (all_below_sound 0x100 (fits kb.shift_pressed) s (chars_table kb.shift_pressed) h))
]

shift_table :
    all_below 0x100
      (λ s. not (is_lower (char_of false s)) || (char_of true s == char_of false s - 32))
    ≡ true
unfolding char_of scancode_to_char scancode_to_char_shift all_below
shift_table = refl

-- The shift flag turns a key that gives a small letter into one that gives its capital.
shift_upper :
    (s : ℕ) → s < 0x100 → is_lower (char_of false s) ≡ true → char_of true s ≡ char_of false s - 32
shift_upper s h l = ground (
  arith,
  all_below_sound 0x100
      (λ s. not (is_lower (char_of false s)) || (char_of true s == char_of false s - 32)) s
      shift_table h,
)
