-- ===== src/Screen/Printf/Pieces.antt =====
-- `vga_printf` against the text that a format stands for.
use fox_os.Base.{
  ℕ, zero, suc, ◌^◌, ◌<◌, ◌≡◌, ◌≢◌, refl, sym, ap, ◌∙◌, List, [], ◌∷◌, ◌++◌, Run, ret, fault, ◌>>=◌,
  All, arith, length, codes, ne→==, length-append,
}
use fox_os.Base.Int.{ℤ, pos}
use fox_os.Screen.{Screen, vga_putchar, vga_write}
use fox_os.Screen.Numbers.Read.{
  IsInt64, hex_text, bin_text, dec_text, put_hex-write, put_bin-write, put_dec-write, write-append,
  bind_assoc, bind_cong,
}
use fox_os.Screen.Printf.{
  Arg, arg_int, arg_int64, arg_uint64, arg_text, put_directive, put_long, put_percent, put_next,
  printf_from, vga_printf, State, low_byte,
}

-- A part of a format, with the value that it shows.
pub data Piece : Type 0 where
  plain : ℕ → Piece
  percent : Piece
  dec : ℤ → Piece
  long_dec : ℤ → Piece
  hex : ℕ → Piece
  bin : ℕ → Piece
  str : List ℕ → Piece
  chr : ℕ → Piece

abbrev pub piece_format : Piece → List ℕ
piece_format (plain c) = c ∷ []
piece_format percent = codes "%%"
piece_format (dec n) = codes "%d"
piece_format (long_dec n) = codes "%lld"
piece_format (hex n) = codes "%x"
piece_format (bin n) = codes "%b"
piece_format (str t) = codes "%s"
piece_format (chr c) = codes "%c"

abbrev pub piece_args : Piece → List Arg
piece_args (plain c) = []
piece_args percent = []
piece_args (dec n) = arg_int n ∷ []
piece_args (long_dec n) = arg_int64 n ∷ []
piece_args (hex n) = arg_uint64 n ∷ []
piece_args (bin n) = arg_uint64 n ∷ []
piece_args (str t) = arg_text t ∷ []
piece_args (chr c) = arg_int (pos c) ∷ []

abbrev pub piece_text : Piece → List ℕ
piece_text (plain c) = c ∷ []
piece_text percent = b'%' ∷ []
piece_text (dec n) = dec_text n
piece_text (long_dec n) = dec_text n
piece_text (hex n) = hex_text n
piece_text (bin n) = bin_text n
piece_text (str t) = t
piece_text (chr c) = c ∷ []

-- The values are of the types that are passed, and a plain character is no percent sign.
abbrev pub IsPiece : Piece → Type 0
IsPiece (plain c) = c ≢ b'%'
IsPiece percent = Unit
IsPiece (dec n) = IsInt64 n
IsPiece (long_dec n) = IsInt64 n
IsPiece (hex n) = n < 2 ^ 64
IsPiece (bin n) = n < 2 ^ 64
IsPiece (str t) = Unit
IsPiece (chr c) = c < 256

abbrev pub format_of : List Piece → List ℕ
format_of [] = []
format_of (p ∷ ps) = piece_format p ++ format_of ps

abbrev pub args_of : List Piece → List Arg
args_of [] = []
args_of (p ∷ ps) = piece_args p ++ args_of ps

abbrev pub text_of : List Piece → List ℕ
text_of [] = []
text_of (p ∷ ps) = piece_text p ++ text_of ps

bind_ret {ℓ} : {A : Type ℓ} (r : Run A) → (r >>= λ x. ret x) ≡ r
bind_ret (ret x) = refl
bind_ret fault = refl

pub putchar-write : (s : Screen) (c : ℕ) → vga_putchar s c ≡ vga_write s (c ∷ [])
unfolding vga_write
putchar-write s c = sym (bind_ret (vga_putchar s c))

abbrev next_state : List ℕ → List Arg → Screen → Run State
next_state f args t = ret (t, f, args)

-- A round that prints with `r` what `w` prints.
round :
    (k : ℕ) (f : List ℕ) (args : List Arg) {r w : Run Screen}
    → r ≡ w
    → ((r >>= next_state f args) >>= λ x. printf_from k x.0 x.1 x.2)
      ≡ (w >>= λ t. printf_from k t f args)
round k f args {r} {w} e =
    bind_assoc r (next_state f args) (λ x. printf_from k x.0 x.1 x.2)
    ∙ ap (λ z. z >>= λ t. printf_from k t f args) e

low_byte-pos : (c : ℕ) → c < 256 → low_byte (pos c) ≡ c
unfolding low_byte
low_byte-pos c l = omega arith

-- A piece takes one round, which prints its text.
piece_round :
    (k : ℕ) (s : Screen) (p : Piece) (f : List ℕ) (args : List Arg)
    → IsPiece p
    → printf_from (suc k) s (piece_format p ++ f) (piece_args p ++ args)
      ≡ (vga_write s (piece_text p) >>= λ t. printf_from k t f args)
unfolding printf_from put_next put_percent put_directive put_long
piece_round k s (plain c) f args h = rw (ne→== c b'%' h) (round k f args (putchar-write s c))
piece_round k s percent f args h = round k f args (putchar-write s b'%')
piece_round k s (dec n) f args h = round k f args (put_dec-write s n h)
piece_round k s (long_dec n) f args h = round k f args (put_dec-write s n h)
piece_round k s (hex n) f args h = round k f args (put_hex-write s n h)
piece_round k s (bin n) f args h = round k f args (put_bin-write s n h)
piece_round k s (str t) f args h = round k f args refl
piece_round k s (chr c) f args h =
    round k f args (ap (λ d. vga_putchar s d) (low_byte-pos c h) ∙ putchar-write s c)

piece_format-long : (p : Piece) → 0 < length (piece_format p)
piece_format-long (plain c) = omega arith
piece_format-long percent = omega arith
piece_format-long (dec n) = omega arith
piece_format-long (long_dec n) = omega arith
piece_format-long (hex n) = omega arith
piece_format-long (bin n) = omega arith
piece_format-long (str t) = omega arith
piece_format-long (chr c) = omega arith

-- With fuel for each character of the format the loop comes to its end.
printf_from_lem :
    (k : ℕ) (s : Screen) (ps : List Piece)
    → All IsPiece ps
    → length (format_of ps) < k
    → printf_from k s (format_of ps) (args_of ps) ≡ vga_write s (text_of ps)
printf_from_lem zero s ps a l = absurd (omega arith)
printf_from_lem (suc k) s [] a l = unfold printf_from in unfold vga_write in refl
printf_from_lem (suc k) s (p ∷ ps) a l =
    piece_round k s p (format_of ps) (args_of ps) a.0
    ∙ bind_cong (vga_write s (piece_text p)) (λ t. printf_from k t (format_of ps) (args_of ps))
        (λ t. vga_write t (text_of ps))
        (λ t.
          printf_from_lem k t ps a.1
            (omega (arith, length-append (piece_format p) (format_of ps), piece_format-long p)))
    ∙ write-append s (piece_text p) (text_of ps)

-- `vga_printf` prints what the format stands for: plain characters, `%%`, and numbers, texts
-- and characters in their formats `%d`, `%lld`, `%x`, `%b`, `%s` and `%c`, one behind the other, if the arguments are those
-- of the format and of the types that are read. It comes to its end if printing that text does.
pub printf_prints :
    (s : Screen) (ps : List Piece)
    → All IsPiece ps
    → vga_printf s (format_of ps) (args_of ps) ≡ vga_write s (text_of ps)
unfolding vga_printf
printf_prints s ps a = printf_from_lem (suc (length (format_of ps))) s ps a (omega arith)
