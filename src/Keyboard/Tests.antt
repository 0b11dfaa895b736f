-- ===== src/Keyboard/Tests.antt =====
-- Keys of the keyboard: the scan code of `a` is 0x1e, that of its release 0x9e.
use fox_os.Base.{◌≤◌, ◌≡◌, ◌≢◌, refl, arith, true, false}
use fox_os.Keyboard.{Keyboard, char_of, handle, scancode_to_char, scancode_to_char_shift}
use fox_os.Keyboard.Chars.{is_arrow, is_key_char, handle_chars}

-- No key is held and no shift key.
abbrev idle : Keyboard
idle = record { shift_pressed = false; last_scancode = 0; key_held = false }

abbrev shifted : Keyboard
shifted = record idle { shift_pressed = true }

types_a : ((handle idle 0x1e).0 ≡ b'a') × ((handle shifted 0x1e).0 ≡ b'A')
unfolding handle char_of scancode_to_char scancode_to_char_shift
types_a = (refl, refl)

handle_chars_example :
    (is_key_char (handle idle 0x4b).0 ≡ true)
    × ((handle idle 0x4b).0 ≢ 0 → (handle idle 0x4b).0 ≤ 5 → is_arrow 0x4b ≡ true)
handle_chars_example = handle_chars idle 0x4b (omega arith)
