-- ===== src/Screen/Numbers.antt =====
-- The number formats of src/vga.c: `vga_put_dec`, `vga_put_hex` and `vga_put_bin`. Each fills the
-- array `buf` with the characters, the last digit first, and prints it from its end.
pub mod Digits
pub mod Read
pub mod RoundTrip
use mathlib.Core.List.{reverse}
use fox_os.Base.{
  ℕ, zero, suc, ◌+◌, ◌-◌, ◌/◌, ◌%◌, ◌^◌, Bool, false, List, [], ◌∷◌, map, Run, ret, need, ◌>>=◌,
  ltb, leb, ◌==◌, if◌then◌else◌, length, get_or, codes,
}
use fox_os.Base.Int.{ℤ, pos, negsuc}
use fox_os.Screen.{Screen, vga_putchar, vga_write}

-- `while (num > 0) { … num / base … }`: the digits, with fuel for the rounds.
unfoldable pub digits_from : ℕ → ℕ → ℕ → List ℕ
digits_from base zero num = []
digits_from base (suc fuel) num =
    let rest = digits_from base fuel (num / base) in if ltb 0 num then num % base ∷ rest else []

-- The `do` loops: one round, then as long as `num > 0`.
unfoldable pub loop_digits : ℕ → ℕ → List ℕ
loop_digits base num = num % base ∷ digits_from base 64 (num / base)

abbrev pub hex_digit : ℕ → ℕ
hex_digit d = get_or (codes "0123456789ABCDEF") d 0

-- `'0' + d`
abbrev pub plain_digit : ℕ → ℕ
plain_digit d = b'0' + d

-- What is written into `buf` has to fit; then a prefix is printed, and `buf` from its end.
abbrev pub put_digits : Screen → ℕ → List ℕ → List ℕ → Run Screen
put_digits s size prefix buf =
    need (leb (length buf) size) (vga_write s prefix >>= λ t. vga_write t (reverse buf))

unfoldable pub vga_put_hex : Screen → ℕ → Run Screen
vga_put_hex s num = put_digits s 32 (codes "0x") (map hex_digit (loop_digits 16 num))

unfoldable pub vga_put_bin : Screen → ℕ → Run Screen
vga_put_bin s num = put_digits s 65 (codes "0b") (map plain_digit (loop_digits 2 num))

-- `num == INT64_MIN`
abbrev pub is_min : ℤ → Bool
is_min (pos n) = false
is_min (negsuc n) = n == 2 ^ 63 - 1

abbrev pub magnitude : ℤ → ℕ
magnitude (pos n) = n
magnitude (negsuc n) = suc n

abbrev pub sign : ℤ → List ℕ
sign (pos n) = []
sign (negsuc n) = b'-' ∷ []

abbrev pub dec_digits : ℕ → List ℕ
dec_digits num = if num == 0 then 0 ∷ [] else digits_from 10 64 num

unfoldable pub vga_put_dec : Screen → ℤ → Run Screen
vga_put_dec s num =
    if is_min num
    then vga_write s (codes "-9223372036854775808")
    else put_digits s 32 (sign num) (map plain_digit (dec_digits (magnitude num)))
