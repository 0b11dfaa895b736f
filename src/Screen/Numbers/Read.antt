-- ===== src/Screen/Numbers/Read.antt =====
-- The number formats against a reader of numbers.
use mathlib.Core.List.{reverse, reverse-cons}
use fox_os.Base.{
  ℕ, ◌+◌, ◌-◌, ◌*◌, ◌^◌, ◌<◌, ◌≤◌, ◌≡◌, refl, sym, ◌∙◌, Bool, true, Option, none, some, leb, ◌&&◌,
  List, [], ◌∷◌, ◌++◌, map, Run, ret, fault, ◌>>=◌, All, arith, length, length-map, ltb, ◌==◌,
  if◌then◌else◌, codes, le→leb, all_below, all_below_sound, ==→eq, Bool-cases, inl, inr,
}
use fox_os.Base.Int.{ℤ, pos, negsuc}
use fox_os.Screen.{Screen, vga_putchar, vga_write}
use fox_os.Screen.Numbers.{
  loop_digits, hex_digit, plain_digit, put_digits, vga_put_hex, vga_put_bin, vga_put_dec, is_min,
  magnitude, sign, dec_digits, digits_from,
}
use fox_os.Screen.Numbers.Digits.{
  value, value-digits_from, length-digits_from, All-digits_from, length-loop_digits,
}

-- What a character stands for, as a digit.
abbrev pub digit_of : ℕ → ℕ
digit_of c = if ltb c b'A' then c - b'0' else c - b'A' + 10

-- The number that a text shows in a base, from its first character on.
abbrev pub read_from : ℕ → ℕ → List ℕ → ℕ
read_from b n [] = n
read_from b n (c ∷ text) = read_from b (n * b + digit_of c) text

-- The number that a text of decimal digits shows, of which there is one at least.
abbrev is_decimal : ℕ → Bool
is_decimal c = leb b'0' c && leb c b'9'

abbrev pub all_decimal : List ℕ → Bool
all_decimal [] = true
all_decimal (c ∷ text) = is_decimal c && all_decimal text

abbrev pub read_decimal : List ℕ → Option ℕ
read_decimal [] = none
read_decimal (c ∷ text) = if all_decimal (c ∷ text) then some (read_from 10 0 (c ∷ text)) else none

pub read_decimal_lem :
    (text : List ℕ)
    → 0 < length text
    → all_decimal text ≡ true
    → read_decimal text ≡ some (read_from 10 0 text)
read_decimal_lem [] l a = absurd (omega arith)
read_decimal_lem (c ∷ text) l a = rw a refl

all_decimal-snoc :
    (text : List ℕ) (c : ℕ)
    → all_decimal text ≡ true
    → is_decimal c ≡ true
    → all_decimal (text ++ (c ∷ [])) ≡ true
all_decimal-snoc [] c a d = rw d refl
all_decimal-snoc (e ∷ text) c a d = elim (Bool-cases (is_decimal e)) [
  | inl h ↦ rw h (all_decimal-snoc text c (rw h at a) d)
  | inr h ↦ absurd (ground (arith, a, h))
]

is_decimal-plain : (d : ℕ) → d < 10 → is_decimal (plain_digit d) ≡ true
is_decimal-plain d l = ground arith

pub all_decimal-reverse :
    (ds : List ℕ) → All (λ d. d < 10) ds → all_decimal (reverse (map plain_digit ds)) ≡ true
all_decimal-reverse [] a = refl
all_decimal-reverse (d ∷ ds) a = rw reverse-cons (
    all_decimal-snoc (reverse (map plain_digit ds)) (plain_digit d) (all_decimal-reverse ds a.1)
      (is_decimal-plain d a.0))

-- Some digit is there, of zero as well.
pub dec_digits-some : (n : ℕ) → 0 < length (dec_digits n)
unfolding digits_from
dec_digits-some n = elim (Bool-cases (n == 0)) [
  | inl e ↦ rw e (omega arith)
  | inr e ↦ ground (arith, e)
]

read_from-snoc :
    (b n : ℕ) (text : List ℕ) (c : ℕ)
    → read_from b n (text ++ (c ∷ [])) ≡ read_from b n text * b + digit_of c
read_from-snoc b n [] c = refl
read_from-snoc b n (d ∷ text) c = read_from-snoc b (n * b + digit_of d) text c

-- Reading gives back the value of the digits.
pub read_from-value :
    (b : ℕ) (char : ℕ → ℕ) (ds : List ℕ)
    → ((d : ℕ) → d < b → digit_of (char d) ≡ d)
    → All (λ d. d < b) ds
    → read_from b 0 (reverse (map char ds)) ≡ value b ds
read_from-value b char [] h a = refl
read_from-value b char (d ∷ ds) h a =
    rw
      (
        reverse-cons,
        read_from-snoc b 0 (reverse (map char ds)) (char d),
        read_from-value b char ds h a.1,
        h d a.0,
      )
      (omega arith)

hex_table : all_below 16 (λ x. digit_of (hex_digit x) == x) ≡ true
unfolding all_below
hex_table = refl

pub digit_of-hex : (d : ℕ) → d < 16 → digit_of (hex_digit d) ≡ d
digit_of-hex d l =
    ==→eq (digit_of (hex_digit d)) d
      (all_below_sound 16 (λ x. digit_of (hex_digit x) == x) d hex_table l)

pub digit_of-plain : (d : ℕ) → d < 10 → digit_of (plain_digit d) ≡ d
digit_of-plain d l = ground arith

pub bind_assoc {ℓ κ ι} :
    {A : Type ℓ} {B : Type κ} {C : Type ι} (r : Run A) (f : A → Run B) (g : B → Run C)
    → ((r >>= f) >>= g) ≡ (r >>= λ x. f x >>= g)
bind_assoc (ret x) f g = refl
bind_assoc fault f g = refl

pub bind_cong {ℓ κ} :
    {A : Type ℓ} {B : Type κ} (r : Run A) (f g : A → Run B)
    → ((x : A) → f x ≡ g x)
    → (r >>= f) ≡ (r >>= g)
bind_cong (ret x) f g h = h x
bind_cong fault f g h = refl

pub write-append :
    (s : Screen) (a b : List ℕ) → (vga_write s a >>= λ t. vga_write t b) ≡ vga_write s (a ++ b)
unfolding vga_write
write-append s [] b = refl
write-append s (c ∷ a) b =
    bind_assoc (vga_putchar s c) (λ t. vga_write t a) (λ t. vga_write t b)
    ∙ bind_cong (vga_putchar s c) (λ t. vga_write t a >>= λ u. vga_write u b)
        (λ t. vga_write t (a ++ b)) (λ t. write-append t a b)

pub put_digits_lem :
    (s : Screen) (size : ℕ) (prefix buf : List ℕ)
    → length buf ≤ size
    → put_digits s size prefix buf ≡ vga_write s (prefix ++ reverse buf)
put_digits_lem s size prefix buf l =
    rw (le→leb (length buf) size l) (write-append s prefix (reverse buf))

-- The texts that are printed.
abbrev pub hex_text : ℕ → List ℕ
hex_text n = codes "0x" ++ reverse (map hex_digit (loop_digits 16 n))

abbrev pub bin_text : ℕ → List ℕ
bin_text n = codes "0b" ++ reverse (map plain_digit (loop_digits 2 n))

abbrev pub dec_text : ℤ → List ℕ
dec_text n =
    if is_min n
    then codes "-9223372036854775808"
    else sign n ++ reverse (map plain_digit (dec_digits (magnitude n)))

-- The values of an `int64_t`.
abbrev pub IsInt64 : ℤ → Type 0
IsInt64 (pos n) = n < 2 ^ 63
IsInt64 (negsuc n) = n < 2 ^ 63

-- What `dec_digits` gives for a number of 63 bits and for 2 ^ 63.
pub dec_digits_lem :
    (n : ℕ)
    → n ≤ 2 ^ 63
    → (value 10 (dec_digits n) ≡ n)
      × All (λ d. d < 10) (dec_digits n)
      × (length (dec_digits n) ≤ 19)
dec_digits_lem n l = elim (Bool-cases (n == 0)) [
  | inl e ↦ rw e (sym (==→eq n 0 e), (omega arith, tt), omega arith)
  | inr e ↦ rw e (
    value-digits_from 10 (omega arith) 64 n (omega arith),
    All-digits_from 10 (omega arith) 64 n,
    length-digits_from 10 (omega arith) 64 19 n (omega arith),
  )
]

pub magnitude-le : (num : ℤ) → IsInt64 num → magnitude num ≤ 2 ^ 63
magnitude-le (pos n) l = omega arith
magnitude-le (negsuc n) l = omega arith

pub put_dec-write :
    (s : Screen) (num : ℤ) → IsInt64 num → vga_put_dec s num ≡ vga_write s (dec_text num)
unfolding vga_put_dec
put_dec-write s num h = elim (Bool-cases (is_min num)) [
  | inl e ↦ rw e refl
  | inr e ↦ rw e (
      put_digits_lem s 32 (sign num) (map plain_digit (dec_digits (magnitude num))) (
        omega (
          arith,
          length-map plain_digit (dec_digits (magnitude num)),
          (dec_digits_lem (magnitude num) (magnitude-le num h)).2,
        )))
]

pub put_hex-write : (s : Screen) (n : ℕ) → n < 2 ^ 64 → vga_put_hex s n ≡ vga_write s (hex_text n)
unfolding vga_put_hex
put_hex-write s n l = put_digits_lem s 32 (codes "0x") (map hex_digit (loop_digits 16 n)) (
    omega (
      arith,
      length-map hex_digit (loop_digits 16 n),
      length-loop_digits 16 (omega arith) 15 n (omega arith),
    ))

pub put_bin-write : (s : Screen) (n : ℕ) → n < 2 ^ 64 → vga_put_bin s n ≡ vga_write s (bin_text n)
unfolding vga_put_bin
put_bin-write s n l = put_digits_lem s 65 (codes "0b") (map plain_digit (loop_digits 2 n)) (
    omega (
      arith,
      length-map plain_digit (loop_digits 2 n),
      length-loop_digits 2 (omega arith) 63 n (omega arith),
    ))
