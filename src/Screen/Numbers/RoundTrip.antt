-- ===== src/Screen/Numbers/RoundTrip.antt =====
-- What is printed for a number reads as that number.
use mathlib.Core.List.{reverse}
use fox_os.Base.{
  ℕ, ◌-◌, ◌^◌, ◌<◌, ◌≤◌, ◌≡◌, refl, ap, ◌∙◌, false, some, List, ◌++◌, map, ret, arith, length,
  length-reverse, length-map, ◌==◌, codes, ==→eq, Bool-cases, inl, inr,
}
use fox_os.Base.Int.{ℤ, pos, negsuc}
use fox_os.Screen.{Screen, vga_write}
use fox_os.Screen.Cursor.{OnScreen}
use fox_os.Screen.Putchar.{write_OnScreen}
use fox_os.Screen.Numbers.{
  loop_digits, hex_digit, plain_digit, vga_put_hex, vga_put_bin, vga_put_dec, is_min, magnitude,
  sign, dec_digits,
}
use fox_os.Screen.Numbers.Digits.{value-loop_digits, length-loop_digits, All-loop_digits}
use fox_os.Screen.Numbers.Read.{
  read_from-value, digit_of-hex, digit_of-plain, put_digits_lem, dec_digits_lem, read_from, IsInt64,
  read_decimal, read_decimal_lem, all_decimal-reverse, dec_digits-some,
}

-- `vga_put_hex` of a 64-bit number, with the cursor on the screen, prints "0x" and at most 16
-- characters that read as the number in base 16; `buf` is not overrun.
put_hex_reads :
    (s : Screen) (n : ℕ)
    → OnScreen s
    → n < 2 ^ 64
    → (t : Screen) × (text : List ℕ) × (vga_put_hex s n ≡ ret t)
      × (vga_write s (codes "0x" ++ text) ≡ ret t)
      × (read_from 16 0 text ≡ n)
      × (length text ≤ 16)
unfolding vga_put_hex
put_hex_reads s n v l =
    let ds = loop_digits 16 n in
    let buf = map hex_digit ds in
    let size : length buf ≤ 16 =
      omega
        (arith, length-map hex_digit ds, length-loop_digits 16 (omega arith) 15 n (omega arith)) in
    let (t, e, _) = write_OnScreen (codes "0x" ++ reverse buf) s v in
    (
      t,
      reverse buf,
      put_digits_lem s 32 (codes "0x") buf (omega arith) ∙ e,
      e,
      read_from-value 16 hex_digit ds digit_of-hex (All-loop_digits 16 (omega arith) n)
          ∙ value-loop_digits 16 (omega arith) n l,
      omega (arith, length-reverse buf),
    )

-- `vga_put_bin` of a 64-bit number, with the cursor on the screen, prints "0b" and at most 64
-- characters that read as the number in base 2; `buf` is not overrun.
put_bin_reads :
    (s : Screen) (n : ℕ)
    → OnScreen s
    → n < 2 ^ 64
    → (t : Screen) × (text : List ℕ) × (vga_put_bin s n ≡ ret t)
      × (vga_write s (codes "0b" ++ text) ≡ ret t)
      × (read_from 2 0 text ≡ n)
      × (length text ≤ 64)
unfolding vga_put_bin
put_bin_reads s n v l =
    let ds = loop_digits 2 n in
    let buf = map plain_digit ds in
    let size : length buf ≤ 64 =
      omega
        (arith, length-map plain_digit ds, length-loop_digits 2 (omega arith) 63 n (omega arith)) in
    let (t, e, _) = write_OnScreen (codes "0b" ++ reverse buf) s v in
    (
      t,
      reverse buf,
      put_digits_lem s 65 (codes "0b") buf (omega arith) ∙ e,
      e,
      read_from-value 2 plain_digit ds (λ d k. digit_of-plain d (omega arith))
            (All-loop_digits 2 (omega arith) n)
          ∙ value-loop_digits 2 (omega arith) n l,
      omega (arith, length-reverse buf),
    )

-- What is printed: the digits behind the sign.
abbrev Prints : Screen → ℤ → Type 0
Prints s num =
    (t : Screen) × (text : List ℕ) × (vga_put_dec s num ≡ ret t)
    × (vga_write s (sign num ++ text) ≡ ret t)
    × (read_decimal text ≡ some (magnitude num))
    × (length text ≤ 19)

Prints-min : (s : Screen) (num : ℤ) → OnScreen s → num ≡ negsuc (2 ^ 63 - 1) → Prints s num
unfolding vga_put_dec
Prints-min s num v e =
    let (t, w, _) = write_OnScreen (codes "-9223372036854775808") s v in
    rw e (t, codes "9223372036854775808", w, w, refl, omega arith)

Prints-digits :
    (s : Screen) (num : ℤ) → OnScreen s → is_min num ≡ false → magnitude num ≤ 2 ^ 63 → Prints s num
unfolding vga_put_dec
Prints-digits s num v e l =
    let (val, all, len) = dec_digits_lem (magnitude num) l in
    let buf = map plain_digit (dec_digits (magnitude num)) in
    let size : length buf ≤ 19 =
      omega (arith, length-map plain_digit (dec_digits (magnitude num))) in
    let (t, w, _) = write_OnScreen (sign num ++ reverse buf) s v in
    (
      t,
      reverse buf,
      rw e (put_digits_lem s 32 (sign num) buf (omega arith) ∙ w),
      w,
      read_decimal_lem (reverse buf)
            (omega (
              arith,
              length-reverse buf,
              length-map plain_digit (dec_digits (magnitude num)),
              dec_digits-some (magnitude num),
            ))
            (all_decimal-reverse (dec_digits (magnitude num)) all)
          ∙ ap some (
              read_from-value 10 plain_digit (dec_digits (magnitude num)) digit_of-plain all ∙ val),
      omega (arith, length-reverse buf),
    )

-- `vga_put_dec` of any `int64_t`, the smallest included, with the cursor on the screen, prints the
-- sign if the number is negative, and then 1 to 19 decimal digits and nothing else, which read as its
-- absolute value; `buf` is not overrun.
pub put_dec_reads :
    (s : Screen) (num : ℤ)
    → OnScreen s
    → IsInt64 num
    → (t : Screen) × (text : List ℕ) × (vga_put_dec s num ≡ ret t)
      × (vga_write s (sign num ++ text) ≡ ret t)
      × (read_decimal text ≡ some (magnitude num))
      × (length text ≤ 19)
put_dec_reads s (pos n) v l = Prints-digits s (pos n) v refl (omega arith)
put_dec_reads s (negsuc n) v l = elim (Bool-cases (n == 2 ^ 63 - 1)) [
  | inl e ↦ Prints-min s (negsuc n) v (ap negsuc (==→eq n (2 ^ 63 - 1) e))
  | inr e ↦ Prints-digits s (negsuc n) v e (omega arith)
]
