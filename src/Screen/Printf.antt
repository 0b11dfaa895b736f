-- ===== src/Screen/Printf.antt =====
-- `vga_printf` of src/vga.c. An argument of another type than the one that is read is a fault, as is
-- one that is missing.
pub mod Pieces
use fox_os.Base.{
  ℕ, zero, suc, ◌%◌, Bool, true, false, ◌&&◌, List, [], ◌∷◌, Run, ret, fault, ◌>>=◌, ◌==◌,
  if◌then◌else◌, length, drop,
}
use fox_os.Base.Int.{ℤ}
use fox_os.Screen.{Screen, to_u16, vga_putchar, vga_write}
use fox_os.Screen.Numbers.{vga_put_dec, vga_put_hex, vga_put_bin}

-- The variable arguments, by the types that are read.
pub data Arg : Type 0 where
  arg_int : ℤ → Arg
  arg_int64 : ℤ → Arg
  arg_uint64 : ℕ → Arg
  arg_text : List ℕ → Arg
  arg_uint : ℕ → Arg

-- What is left after a round: the screen, the format and the arguments.
abbrev pub State : Type 0
State = Screen × List ℕ × List Arg

-- `va_arg` for each of the types, and what is done with the argument.
abbrev pub with_int : List Arg → (ℤ → Run Screen) → List ℕ → Run State
with_int (arg_int n ∷ args) put format = put n >>= λ t. ret (t, format, args)
with_int (arg_int64 n ∷ args) put format = fault
with_int (arg_uint64 n ∷ args) put format = fault
with_int (arg_text n ∷ args) put format = fault
with_int (arg_uint n ∷ args) put format = fault
with_int [] put format = fault

abbrev pub with_int64 : List Arg → (ℤ → Run Screen) → List ℕ → Run State
with_int64 (arg_int64 n ∷ args) put format = put n >>= λ t. ret (t, format, args)
with_int64 (arg_int n ∷ args) put format = fault
with_int64 (arg_uint64 n ∷ args) put format = fault
with_int64 (arg_text n ∷ args) put format = fault
with_int64 (arg_uint n ∷ args) put format = fault
with_int64 [] put format = fault

abbrev pub with_uint64 : List Arg → (ℕ → Run Screen) → List ℕ → Run State
with_uint64 (arg_uint64 n ∷ args) put format = put n >>= λ t. ret (t, format, args)
with_uint64 (arg_int n ∷ args) put format = fault
with_uint64 (arg_int64 n ∷ args) put format = fault
with_uint64 (arg_text n ∷ args) put format = fault
with_uint64 (arg_uint n ∷ args) put format = fault
with_uint64 [] put format = fault

abbrev pub with_text : List Arg → (List ℕ → Run Screen) → List ℕ → Run State
with_text (arg_text n ∷ args) put format = put n >>= λ t. ret (t, format, args)
with_text (arg_int n ∷ args) put format = fault
with_text (arg_int64 n ∷ args) put format = fault
with_text (arg_uint64 n ∷ args) put format = fault
with_text (arg_uint n ∷ args) put format = fault
with_text [] put format = fault

-- An `int` as a `char`: the byte.
unfoldable pub low_byte : ℤ → ℕ
low_byte n = to_u16 n % 256

-- The `switch`, for the character behind the percent sign.
unfoldable pub put_directive : Screen → ℕ → List ℕ → List Arg → Run State
put_directive s c format args =
    if c == b'd'
    then with_int args (λ n. vga_put_dec s n) format
    else if c == b'x'
    then with_uint64 args (λ n. vga_put_hex s n) format
    else if c == b'b'
    then with_uint64 args (λ n. vga_put_bin s n) format
    else if c == b's'
    then with_text args (λ text. vga_write s text) format
    else if c == b'c'
    then with_int args (λ n. vga_putchar s (low_byte n)) format
    else if c == b'%'
    then (vga_putchar s b'%' >>= λ t. ret (t, format, args))
    else vga_putchar s b'%' >>= λ t. vga_putchar t c >>= λ u. ret (u, format, args)

-- Behind `%ll`. At the end of the format the last `format++` steps past its NUL.
unfoldable pub put_long : Screen → List ℕ → List Arg → Run State
put_long s [] args = fault
put_long s (c ∷ format) args =
    if c == b'd' then with_int64 args (λ n. vga_put_dec s n) format else ret (s, format, args)

-- `*(format + 1) == 'l'`
abbrev pub starts_l : List ℕ → Bool
starts_l [] = false
starts_l (c ∷ format) = c == b'l'

-- Behind a percent sign, which at the end of the format is passed with its NUL.
unfoldable pub put_percent : Screen → List ℕ → List Arg → Run State
put_percent s [] args = fault
put_percent s (c ∷ format) args =
    if (c == b'l') && starts_l format
    then put_long s (drop 1 format) args
    else put_directive s c format args

-- A round of the loop.
unfoldable pub put_next : Screen → ℕ → List ℕ → List Arg → Run State
put_next s c format args =
    if c == b'%'
    then put_percent s format args
    else (vga_putchar s c >>= λ t. ret (t, format, args))

unfoldable pub printf_from : ℕ → Screen → List ℕ → List Arg → Run Screen
printf_from zero s format args = fault
printf_from (suc fuel) s [] args = ret s
printf_from (suc fuel) s (c ∷ format) args =
    put_next s c format args >>= λ (t, format', args'). printf_from fuel t format' args'

-- Each round takes at least one character.
unfoldable pub vga_printf : Screen → List ℕ → List Arg → Run Screen
vga_printf s format args = printf_from (suc (length format)) s format args
