-- ===== src/System/Printing.antt =====
-- What the commands print.
use fox_os.Base.{
  ℕ, ◌≡◌, refl, ap, Bool, true, not, ◌&&◌, List, [], ◌∷◌, ◌++◌, All, arith, Ends, ◌==◌, eq→==,
  append-nil,
}
use fox_os.Screen.{Screen}
use fox_os.Screen.Cursor.{OnScreen}
use fox_os.Screen.Putchar.{write_OnScreen}
use fox_os.Screen.Printf.{arg_text}
use fox_os.Screen.Printf.Pieces.{
  Piece, plain, str, IsPiece, format_of, args_of, text_of, printf_prints,
}
use fox_os.System.{System, print}

-- A state that differs in the screen only, with the cursor on it.
abbrev pub Drawn : System → System → Type 0
Drawn k k' = (s : Screen) × (k' ≡ record k { screen = s }) × OnScreen s

print-Drawn :
    (k : System) (ps : List Piece)
    → OnScreen k.screen
    → All IsPiece ps
    → Ends (print k (format_of ps) (args_of ps)) (Drawn k)
unfolding print
print-Drawn k ps v a =
    let (s, e, w) = write_OnScreen (text_of ps) k.screen v in
    (record k { screen = s }, rw (printf_prints k.screen ps a, e) refl, (s, refl, w))

-- No percent sign stands in a text.
abbrev pub no_percent : List ℕ → Bool
no_percent [] = true
no_percent (c ∷ cs) = not (c == b'%') && no_percent cs

abbrev plains : List ℕ → List Piece → List Piece
plains [] ps = ps
plains (c ∷ cs) ps = plain c ∷ plains cs ps

format_of-plains : (cs : List ℕ) (ps : List Piece) → format_of (plains cs ps) ≡ cs ++ format_of ps
format_of-plains [] ps = refl
format_of-plains (c ∷ cs) ps = ap (c ∷◌) (format_of-plains cs ps)

args_of-plains : (cs : List ℕ) (ps : List Piece) → args_of (plains cs ps) ≡ args_of ps
args_of-plains [] ps = refl
args_of-plains (c ∷ cs) ps = args_of-plains cs ps

plains-IsPiece :
    (cs : List ℕ) (ps : List Piece)
    → no_percent cs ≡ true
    → All IsPiece ps
    → All IsPiece (plains cs ps)
plains-IsPiece [] ps h a = a
plains-IsPiece (c ∷ cs) ps h a =
    ((λ e. cc (rw (eq→== c b'%' e) at h)), plains-IsPiece cs ps (ground (arith, h)) a)

-- A format without a percent sign is printed as it is.
pub print_plain :
    (k : System) (format : List ℕ)
    → OnScreen k.screen
    → no_percent format ≡ true
    → Ends (print k format []) (Drawn k)
print_plain k format v h =
    rw (format_of-plains, args_of-plains, append-nil) at
      (print-Drawn k (plains format []) v (plains-IsPiece format [] h tt))

-- So is one with a `%s` in it, but for the text that goes there.
pub print_text :
    (k : System) (before behind text : List ℕ)
    → OnScreen k.screen
    → no_percent before ≡ true
    → no_percent behind ≡ true
    → Ends (print k (before ++ (b'%' ∷ b's' ∷ behind)) (arg_text text ∷ [])) (Drawn k)
print_text k before behind text v h g =
    rw (format_of-plains, args_of-plains, format_of-plains, args_of-plains, append-nil) at
      (print-Drawn k (plains before (str text ∷ plains behind [])) v
        (plains-IsPiece before (str text ∷ plains behind []) h (tt, plains-IsPiece behind [] g tt)))
