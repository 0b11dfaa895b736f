-- ===== src/Screen.antt =====
-- src/vga.c: the text buffer of 80 by 25 cells and its cursor. A write
-- outside the buffer is a fault. What `outb` sends to the cursor's ports is kept, latest first.
pub mod Colors
pub mod Cells
pub mod Cursor
pub mod Putchar
pub mod Numbers
pub mod Printf
pub mod Tests
use Prim.Native.Nat.{bit_or}
use fox_os.Base.{
  ℕ, zero, suc, ◌+◌, ◌-◌, ◌*◌, ◌/◌, ◌%◌, ◌^◌, Bool, List, [], ◌∷◌, Run, ret, fault, need, ◌>>=◌,
  ltb, ◌==◌, if◌then◌else◌, load, store, set, ◌&&◌, not,
}
use fox_os.Screen.Colors.{color_number, vga_color_light_grey, vga_color_black}
use fox_os.Base.Int.{ℤ, pos, negsuc, ◌+ℤ◌, ◌-ℤ◌, ltb_ℤ}

abbrev pub vga_width : ℕ
vga_width = 80

abbrev pub vga_height : ℕ
vga_height = 25

abbrev pub vga_size : ℕ
vga_size = 2000

pub record Screen : Type 0 where
  pub cells : List ℕ
  pub cursor_x : ℤ
  pub cursor_y : ℤ
  pub color : ℕ
  pub outs : List (ℕ × ℕ)

unfoldable pub vga_entry_color : ℕ → ℕ → ℕ
vga_entry_color fg bg = bit_or fg (bg * 16) % 2 ^ 8

-- `(uint16_t)c` of a `char` extends its sign.
unfoldable pub vga_entry : ℕ → ℕ → ℕ
vga_entry c color = bit_or (if ltb c 128 then c else 0xff00 + c) (color * 256) % 2 ^ 16

-- `y * VGA_WIDTH + x`
unfoldable pub cell_index : ℤ → ℤ → ℤ
unfolding ◌+ℤ◌
cell_index x (pos y) = pos (y * vga_width) +ℤ x
cell_index x (negsuc y) = negsuc (y * vga_width + (vga_width - 1)) +ℤ x

-- An `int` as a `uint16_t`.
abbrev pub to_u16 : ℤ → ℕ
to_u16 (pos n) = n % 2 ^ 16
to_u16 (negsuc n) = 2 ^ 16 - 1 - n % 2 ^ 16

unfoldable pub vga_set_cursor : Screen → ℤ → ℤ → Screen
vga_set_cursor s x y =
    let p = to_u16 (cell_index x y) in
    record s {
      cursor_x = x;
      cursor_y = y;
      outs = (0x3d5, p / 256) ∷ (0x3d4, 0x0e) ∷ (0x3d5, p % 256) ∷ (0x3d4, 0x0f) ∷ s.outs;
    }

-- The two variables that the pointers point at afterwards.
abbrev pub vga_get_cursor : Screen → ℤ × ℤ
vga_get_cursor s = (s.cursor_x, s.cursor_y)

-- `vga_buffer[i] = entry;`
unfoldable pub put_cell : Screen → ℤ → ℕ → Run Screen
put_cell s (pos i) entry = need (ltb i vga_size) (ret (record s { cells = set s.cells i entry }))
put_cell s (negsuc i) entry = fault

abbrev pub blank : Screen → ℕ
blank s = vga_entry b' ' s.color

-- The loop of `vga_scroll` that moves each row up: both loops make one over the cells of the first
-- 24 rows, in order.
unfoldable pub copy_up : ℕ → ℕ → List ℕ → Run (List ℕ)
copy_up zero i cells = ret cells
copy_up (suc n) i cells =
    load cells (i + vga_width) >>= λ c. store cells i c >>= λ cells'. copy_up n (suc i) cells'

-- Loops that write one entry into the cells from an index on.
unfoldable pub fill : ℕ → ℕ → ℕ → List ℕ → Run (List ℕ)
fill zero i entry cells = ret cells
fill (suc n) i entry cells = store cells i entry >>= λ cells'. fill n (suc i) entry cells'

unfoldable pub vga_scroll : Screen → Run Screen
vga_scroll s = copy_up ((vga_height - 1) * vga_width) 0 s.cells >>= λ up.
    fill vga_width ((vga_height - 1) * vga_width) (blank s) up >>= λ cells'.
    ret (record s { cells = cells' })

unfoldable pub vga_clear : Screen → Run Screen
vga_clear s = fill vga_size 0 (blank s) s.cells >>= λ cells'. ret (
    vga_set_cursor (record s { cells = cells'; cursor_x = pos 0; cursor_y = pos 0 }) (pos 0)
      (pos 0))

unfoldable pub vga_init : Screen → Run Screen
vga_init s = vga_clear (record s {
  color = vga_entry_color (color_number vga_color_light_grey) (color_number vga_color_black);
})

-- The last part of `vga_putchar`: the end of a line, the end of the screen, the cursor.
unfoldable pub end_of_line : Screen → Screen
unfolding ◌+ℤ◌
end_of_line s =
    if ltb_ℤ s.cursor_x (pos vga_width)
    then s
    else record s { cursor_x = pos 0; cursor_y = s.cursor_y +ℤ pos 1 }

unfoldable pub end_of_screen : Screen → Run Screen
end_of_screen s =
    if ltb_ℤ s.cursor_y (pos vga_height)
    then ret s
    else vga_scroll s >>= λ t. ret (record t { cursor_y = pos (vga_height - 1) })

unfoldable pub settle : Screen → Run Screen
settle s = end_of_screen (end_of_line s) >>= λ t. ret (vga_set_cursor t t.cursor_x t.cursor_y)

-- `n & ~7`
unfoldable pub tab_stop : ℤ → ℤ
tab_stop (pos n) = pos (n / 8 * 8)
tab_stop (negsuc n) = negsuc (n / 8 * 8 + 7)

-- A blank in the cell of the cursor, which is set there.
unfoldable pub erase_cell : Screen → Run Screen
erase_cell s = put_cell s (cell_index s.cursor_x s.cursor_y) (blank s) >>= λ t.
    ret (vga_set_cursor t t.cursor_x t.cursor_y)

unfoldable pub backspace : Screen → Run Screen
unfolding ◌-ℤ◌
backspace s =
    if ltb_ℤ (pos 0) s.cursor_x
    then erase_cell (record s { cursor_x = s.cursor_x -ℤ pos 1 })
    else if ltb_ℤ (pos 0) s.cursor_y
    then erase_cell (record s { cursor_x = pos (vga_width - 1); cursor_y = s.cursor_y -ℤ pos 1 })
    else settle s

unfoldable pub print_char : Screen → ℕ → Run Screen
unfolding ◌+ℤ◌
print_char s c = put_cell s (cell_index s.cursor_x s.cursor_y) (vga_entry c s.color) >>= λ t.
    settle (record t { cursor_x = t.cursor_x +ℤ pos 1 })

unfoldable pub vga_putchar : Screen → ℕ → Run Screen
unfolding ◌+ℤ◌
vga_putchar s c =
    if c == b'\n'
    then settle (record s { cursor_x = pos 0; cursor_y = s.cursor_y +ℤ pos 1 })
    else if c == 13
    then settle (record s { cursor_x = pos 0 })
    else if c == 9
    then settle (record s { cursor_x = tab_stop (s.cursor_x +ℤ pos 8) })
    else if c == 8
    then backspace s
    else print_char s c

-- `vga_write` and `vga_puts`.
unfoldable pub vga_write : Screen → List ℕ → Run Screen
vga_write s [] = ret s
vga_write s (c ∷ str) = vga_putchar s c >>= λ t. vga_write t str

unfoldable pub vga_set_color : Screen → ℕ → ℕ → Screen
vga_set_color s foreground background = record s { color = vga_entry_color foreground background }

unfoldable pub vga_put_entry : Screen → ℤ → ℤ → ℕ → Run Screen
vga_put_entry s x y c =
    if not (ltb_ℤ x (pos 0))
      && ltb_ℤ x (pos vga_width)
      && not (ltb_ℤ y (pos 0))
      && ltb_ℤ y (pos vga_height)
    then put_cell s (cell_index x y) (vga_entry c s.color)
    else ret s
