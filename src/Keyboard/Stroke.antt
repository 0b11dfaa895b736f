-- ===== src/Keyboard/Stroke.antt =====
-- A key that is pressed and released.
use fox_os.Base.{ℕ, ◌+◌, ◌≡◌, true, false, arith}
use fox_os.Keyboard.{Keyboard, handle}
use fox_os.Keyboard.Press.{IsKey, press_bit, release_bits}

pub handle-release :
    (kb : Keyboard) (s : ℕ)
    → IsKey s
    → handle (record kb { last_scancode = s; key_held = true }) (s + 0x80)
      ≡ (0, record kb { last_scancode = 0; key_held = false })
unfolding handle
handle-release kb s k = ground (arith, press_bit s k.press, release_bits s k.press)
