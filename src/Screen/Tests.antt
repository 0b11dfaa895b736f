-- ===== src/Screen/Tests.antt =====
-- A screen of NUL cells.
use fox_os.Base.{
  List, All, ◌++◌, ◌∷◌, ◌≤◌, ℕ, ◌≡◌, refl, arith, [], length-replicate, ret, codes, length,
  replicate, some,
}
use fox_os.Base.Int.{pos, negsuc}
use fox_os.Screen.{Screen, vga_size, vga_write}
use fox_os.Screen.Cursor.{IsAt, OnScreen}
use fox_os.Screen.Putchar.{write_OnScreen}
use fox_os.Screen.Numbers.{digits_from, vga_put_dec}
use fox_os.Screen.Numbers.Read.{read_decimal}
use fox_os.Screen.Numbers.RoundTrip.{put_dec_reads}
use fox_os.Screen.Printf.{vga_printf, arg_int, arg_text}
use fox_os.Screen.Printf.Pieces.{Piece, plain, dec, str, IsPiece, printf_prints}

abbrev screen : Screen
screen = record {
  cells = replicate vga_size 0;
  cursor_x = pos 79;
  cursor_y = pos 2;
  color = 7;
  outs = [];
}

screen-IsAt : IsAt screen 79 2
screen-IsAt = record {
  at_x = refl;
  at_y = refl;
  in_x = omega arith;
  in_y = omega arith;
  size = length-replicate {A = ℕ} vga_size 0;
}

write_OnScreen_example : (t : Screen) × (vga_write screen (codes "ls\n") ≡ ret t) × OnScreen t
write_OnScreen_example = write_OnScreen (codes "ls\n") screen (79, 2, screen-IsAt)

screen-OnScreen : OnScreen screen
screen-OnScreen = (79, 2, screen-IsAt)

put_dec_reads_example :
    (t : Screen) × (text : List ℕ) × (vga_put_dec screen (negsuc 9875) ≡ ret t)
    × (vga_write screen (codes "-" ++ text) ≡ ret t)
    × (read_decimal text ≡ some 9876)
    × (length text ≤ 19)
put_dec_reads_example = put_dec_reads screen (negsuc 9875) screen-OnScreen (omega arith)

-- The format "#%d:%s\n" with the arguments -7 and "ok".
abbrev pieces : List Piece
pieces = plain b'#' ∷ dec (negsuc 6) ∷ plain b':' ∷ str (codes "ok") ∷ plain b'\n' ∷ []

pieces-ArePieces : All IsPiece pieces
pieces-ArePieces = (ground arith, (omega arith, (ground arith, (tt, (ground arith, tt)))))

printf_prints_example :
    vga_printf screen (codes "#%d:%s\n") (arg_int (negsuc 6) ∷ arg_text (codes "ok") ∷ [])
    ≡ vga_write screen (codes "#-7:ok\n")
unfolding digits_from
printf_prints_example = printf_prints screen pieces pieces-ArePieces
