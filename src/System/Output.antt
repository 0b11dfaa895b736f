-- ===== src/System/Output.antt =====
-- The commands of src/terminal.c that only print, or change the colour.
use fox_os.Base.{ℕ, ◌+◌, ◌%◌, List, [], ◌∷◌, Run, ret, ◌>>=◌, codes}
use fox_os.Base.Int.{pos, negsuc}
use fox_os.Screen.{vga_clear, vga_set_color}
use fox_os.Screen.Colors.{
  color_number, vga_color_black, vga_color_light_red, vga_color_light_green, vga_color_light_blue,
  vga_color_light_cyan, vga_color_light_magenta, vga_color_brown, vga_color_white,
}
use fox_os.Screen.Printf.{Arg, arg_int, arg_int64, arg_uint, arg_text}
use fox_os.System.{System, print}

-- Calls of `vga_printf` one after the other, with their arguments.
unfoldable pub print_all : System → List (List ℕ × List Arg) → Run System
print_all k [] = ret k
print_all k ((format, args) ∷ calls) = print k format args >>= λ k'. print_all k' calls

abbrev pub help_lines : List (List ℕ × List Arg)
help_lines =
    (codes "Available commands:\n", [])
    ∷ (codes "  help     - Show this help\n", [])
    ∷ (codes "  clear    - Clear screen\n", [])
    ∷ (codes "  version  - Show version\n", [])
    ∷ (codes "  color    - Change text color\n", [])
    ∷ (codes "  ls       - List directory contents\n", [])
    ∷ (codes "  cd       - Change directory\n", [])
    ∷ (codes "  mkdir    - Create directory\n", [])
    ∷ (codes "  touch    - Create empty file\n", [])
    ∷ (codes "  rm       - Remove file or empty directory\n", [])
    ∷ (codes "  pwd      - Print working directory\n", [])
    ∷ []

unfoldable pub help : System → Run System
help k = print_all k help_lines

unfoldable pub clear_screen : System → Run System
clear_screen k = vga_clear k.screen >>= λ s. ret (record k { screen = s })

-- `-2147483648` is of a 64-bit type in C; `0xDEADBEEF` is unsigned.
abbrev pub formats : List (List ℕ × List Arg)
formats =
    (codes "Decimal numbers:\n", [])
    ∷ (codes "  Positive: %d\n", arg_int (pos 12345) ∷ [])
    ∷ (codes "  Negative: %d\n", arg_int (negsuc 9875) ∷ [])
    ∷ (codes "  Zero: %d\n", arg_int (pos 0) ∷ [])
    ∷ (codes "  Large Positive: %d\n", arg_int (pos 2147483647) ∷ [])
    ∷ (codes "  Large Negative: %d\n", arg_int64 (negsuc 2147483647) ∷ [])
    ∷ (codes "  Very Large: %lld\n", arg_int64 (pos 9223372036854775807) ∷ [])
    ∷ (codes "  Very Large Negative: %lld\n\n", arg_int64 (negsuc 9223372036854775807) ∷ [])
    ∷ (codes "Other formats:\n", [])
    ∷ (codes "  Hexadecimal: %x\n", arg_uint 0xdeadbeef ∷ [])
    ∷ (codes "  Binary: %b\n", arg_int (pos 86) ∷ [])
    ∷ (codes "  Character: %c\n", arg_int (pos b'A') ∷ [])
    ∷ (codes "  String: %s\n", arg_text (codes "Hello, World!") ∷ [])
    ∷ (codes "  Mixed: Dec=%d, Hex=%x\n\n", arg_int (pos 123) ∷ arg_int (pos 123) ∷ [])
    ∷ []

unfoldable pub test_formatting : System → Run System
test_formatting k = print_all k formats

abbrev pub set_color : System → ℕ → System
set_color k c = record k { screen = vga_set_color k.screen c (color_number vga_color_black) }

-- `vga_set_color` and `vga_printf`, for each colour and its name.
unfoldable pub print_colors : System → List (ℕ × List ℕ) → Run System
print_colors k [] = ret k
print_colors k ((c, name) ∷ colors) = print (set_color k c) name [] >>= λ k'. print_colors k' colors

abbrev pub colors : List (ℕ × List ℕ)
colors =
    (color_number vga_color_light_red, codes "RED ")
    ∷ (color_number vga_color_light_green, codes "GREEN ")
    ∷ (color_number vga_color_light_blue, codes "BLUE ")
    ∷ (color_number vga_color_light_cyan, codes "CYAN ")
    ∷ (color_number vga_color_light_magenta, codes "MAGENTA ")
    ∷ (color_number vga_color_brown, codes "BROWN ")
    ∷ (color_number vga_color_white, codes "WHITE\n")
    ∷ []

unfoldable pub test_colors : System → Run System
test_colors k = print k (codes "\nAvailable colors:\n") [] >>= λ k'. print_colors k' colors

unfoldable pub version : System → Run System
version k = print k (codes "FoxOS v0.1\n") []

unfoldable pub next_color : System → System
next_color k = let c = (k.current_color + 1) % 16 in record (set_color k c) { current_color = c }

unfoldable pub pwd : System → Run System
pwd k = print k (codes "%s\n") (arg_text k.current_dir ∷ [])

unfoldable pub unknown : System → List ℕ → Run System
unknown k cmd = print k (codes "Unknown command: %s\n") (arg_text cmd ∷ [])
