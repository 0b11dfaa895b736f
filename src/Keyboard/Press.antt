-- ===== src/Keyboard/Press.antt =====
-- Held keys and released keys.
use Prim.Native.Nat.{bit_and}
use fox_os.Base.{
  ℕ, ◌+◌, ◌<◌, ◌≡◌, refl, true, false, not, ◌&&◌, ◌==◌, arith, all_below, all_below_sound,
}
use fox_os.Keyboard.{Keyboard, handle, char_of, is_shift}

-- The scan code of a key that is no shift key, as it is pressed.
pub record IsKey (scancode : ℕ) : Type 0 where
  pub press : scancode < 0x80
  pub plain : is_shift scancode ≡ false

press_table : all_below 0x80 (λ s. bit_and s 0x80 == 0) ≡ true
unfolding all_below
press_table = refl

release_table :
    all_below 0x80 (λ s. not (bit_and (s + 0x80) 0x80 == 0) && (bit_and (s + 0x80) 0x7f == s))
    ≡ true
unfolding all_below
release_table = refl

pub press_bit : (s : ℕ) → s < 0x80 → (bit_and s 0x80 == 0) ≡ true
press_bit s h = all_below_sound 0x80 _ s press_table h

pub release_bits :
    (s : ℕ) → s < 0x80 → ((bit_and (s + 0x80) 0x80 == 0) ≡ false) × (bit_and (s + 0x80) 0x7f ≡ s)
release_bits s h = ground (
  arith,
  all_below_sound 0x80 (λ s. not (bit_and (s + 0x80) 0x80 == 0) && (bit_and (s + 0x80) 0x7f == s)) s
      release_table h,
)

-- A key that was not held gives its character, and is held then.
pub handle-press :
    (kb : Keyboard) (s : ℕ)
    → IsKey s
    → ((s == kb.last_scancode) && kb.key_held) ≡ false
    → handle kb s ≡ (char_of kb.shift_pressed s, record kb { last_scancode = s; key_held = true })
unfolding handle
handle-press kb s k h = ground (arith, press_bit s k.press)

-- While a key is held, each further press code of it gives no character and changes nothing.
held_once : (kb : Keyboard) (s : ℕ) → IsKey s → handle (handle kb s).1 s ≡ (0, (handle kb s).1)
unfolding handle
held_once kb s k = ground (arith, press_bit s k.press)

-- A key that has been pressed and released gives its character when it is pressed again, in upper
-- case or lower case as the shift flag says.
press_again :
    (kb : Keyboard) (s : ℕ)
    → IsKey s
    → (handle (handle (handle kb s).1 (s + 0x80)).1 s).0 ≡ char_of kb.shift_pressed s
unfolding handle
press_again kb s k = ground (arith, press_bit s k.press, release_bits s k.press)
