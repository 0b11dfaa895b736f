-- ===== src/Screen/Cursor.antt =====
-- The parts of `vga_putchar`, with the cursor on the screen.
use fox_os.Base.{
  ℕ, suc, refl, sym, List, ◌+◌, ◌-◌, ◌*◌, ◌<◌, ◌≡◌, ap, ap₂, need-ret, ◌∙◌, arith, length, set,
  length-set, ltb, if◌then◌else◌, min, ret, Ends, true, ◌>>=◌, lt→ltb,
}
use fox_os.Base.Int.{pos, ◌+ℤ◌, ◌-ℤ◌, ltb_ℤ}
use fox_os.Screen.{
  Screen, vga_width, vga_height, vga_size, cell_index, vga_set_cursor, put_cell, blank, end_of_line,
  end_of_screen, settle, erase_cell, print_char, vga_entry, vga_clear,
}
use fox_os.Screen.Cells.{
  length-scrolled, scrolled-cursor_x, scrolled, vga_scroll-ret, IsScrolled, scrolled-IsScrolled,
  fill-ret, length-filled,
}

-- The cursor is in a cell of the screen, and the buffer has its 2000 cells.
pub record IsAt (s : Screen) (x y : ℕ) : Type 0 where
  pub at_x : s.cursor_x ≡ pos x
  pub at_y : s.cursor_y ≡ pos y
  pub in_x : x < vga_width
  pub in_y : y < vga_height
  pub size : length s.cells ≡ vga_size

abbrev pub OnScreen : Screen → Type 0
OnScreen s = (x : ℕ) × (y : ℕ) × IsAt s x y

-- The end of the screen, and the last part of `vga_putchar`, with the 2000 cells there.
screen_ended : Screen → Screen
screen_ended s =
    if ltb_ℤ s.cursor_y (pos vga_height)
    then s
    else record (scrolled s) { cursor_y = pos (vga_height - 1) }

pub settled : Screen → Screen
settled s = let t = screen_ended (end_of_line s) in vga_set_cursor t t.cursor_x t.cursor_y

end_of_line-cells : (s : Screen) → (end_of_line s).cells ≡ s.cells
unfolding end_of_line
end_of_line-cells s = ground arith

end_of_screen-ret :
    (s : Screen) → length s.cells ≡ vga_size → end_of_screen s ≡ ret (screen_ended s)
unfolding end_of_screen screen_ended
end_of_screen-ret s l = ground (arith, vga_scroll-ret s l)

pub settle-ret : (s : Screen) → length s.cells ≡ vga_size → settle s ≡ ret (settled s)
unfolding settle settled
settle-ret s l =
    ap (λ r. r >>= λ t. ret (vga_set_cursor t t.cursor_x t.cursor_y))
      (end_of_screen-ret (end_of_line s) (ap length (end_of_line-cells s) ∙ l))

module _ (s : Screen) (x y : ℕ) (hx : s.cursor_x ≡ pos x) (hy : s.cursor_y ≡ pos y) where
  end_of_line_lem :
      ((end_of_line s).cursor_x ≡ pos (if ltb x vga_width then x else 0))
      × ((end_of_line s).cursor_y ≡ pos (if ltb x vga_width then y else suc y))
      × ((end_of_line s).cells ≡ s.cells)
      × ((end_of_line s).color ≡ s.color)
  unfolding end_of_line
  end_of_line_lem = ground arith

  screen_ended_lem :
      ((screen_ended s).cursor_x ≡ pos x)
      × ((screen_ended s).cursor_y ≡ pos (min y (vga_height - 1)))
      × (length (screen_ended s).cells ≡ length s.cells)
      × (y < vga_height → (screen_ended s).cells ≡ s.cells)
  unfolding screen_ended
  screen_ended_lem = ground (arith, length-scrolled s, scrolled-cursor_x s)

-- The cursor after the end of a line and of the screen have been handled.
pub settled_lem :
    (s : Screen) (x y : ℕ)
    → s.cursor_x ≡ pos x
    → s.cursor_y ≡ pos y
    → length s.cells ≡ vga_size
    → IsAt
        (settled s)
        (if ltb x vga_width then x else 0)
        (min (if ltb x vga_width then y else suc y) (vga_height - 1))
unfolding settled vga_set_cursor
settled_lem s x y hx hy l =
    let x' = if ltb x vga_width then x else 0 in
    let y' = if ltb x vga_width then y else suc y in
    let (ex, ey, ec, _) = end_of_line_lem s x y hx hy in
    let (fx, fy, fl, _) = screen_ended_lem (end_of_line s) x' y' ex ey in
    record {
      at_x = fx;
      at_y = fy;
      in_x = ground arith;
      in_y = omega arith;
      size = fl ∙ ap length ec ∙ l;
    }

-- Without a scroll only the cursor changes.
pub settled-cells :
    (s : Screen) (x y : ℕ)
    → s.cursor_x ≡ pos x
    → s.cursor_y ≡ pos y
    → (if ltb x vga_width then y else suc y) < vga_height
    → (settled s).cells ≡ s.cells
unfolding settled vga_set_cursor
settled-cells s x y hx hy b =
    let x' = if ltb x vga_width then x else 0 in
    let y' = if ltb x vga_width then y else suc y in
    let (ex, ey, ec, _) = end_of_line_lem s x y hx hy in
    (screen_ended_lem (end_of_line s) x' y' ex ey).3 b ∙ ec

ended-cells :
    (s : Screen) → s.cursor_y ≡ pos vga_height → (screen_ended s).cells ≡ (scrolled s).cells
unfolding screen_ended
ended-cells s h = ground (arith, h)

same-IsScrolled :
    (a a' : List ℕ) (e e' : ℕ) (b b' : List ℕ)
    → a ≡ a'
    → e ≡ e'
    → b ≡ b'
    → IsScrolled a' e' b'
    → IsScrolled a e b
same-IsScrolled a a' e e' b b' ea ee eb h = rw (ea, ee, eb) h

-- Behind the last cell the screen scrolls.
pub settled-IsScrolled :
    (s : Screen)
    → s.cursor_x ≡ pos vga_width
    → s.cursor_y ≡ pos (vga_height - 1)
    → length s.cells ≡ vga_size
    → IsScrolled s.cells (blank s) (settled s).cells
unfolding settled vga_set_cursor
settled-IsScrolled s hx hy l =
    let t = end_of_line s in
    let (_, ey, ec, eo) = end_of_line_lem s vga_width (vga_height - 1) hx hy in
    same-IsScrolled s.cells t.cells (blank s) (blank t) (settled s).cells (scrolled t).cells
      (sym ec) (ap (vga_entry b' ') (sym eo)) (ended-cells t ey)
      (scrolled-IsScrolled t (ap length ec ∙ l))

pub pos-add : (a b : ℕ) → pos a +ℤ pos b ≡ pos (a + b)
unfolding ◌+ℤ◌
pos-add a b = ground arith

pub pos-sub_one : (a : ℕ) → 0 < a → pos a -ℤ pos 1 ≡ pos (a - 1)
unfolding ◌-ℤ◌
pos-sub_one a h = ground arith

pub positive : (a : ℕ) → ltb_ℤ (pos 0) (pos a) ≡ true → 0 < a
positive a h = ground arith

cell_index_lem : (x y : ℕ) → cell_index (pos x) (pos y) ≡ pos (y * vga_width + x)
unfolding cell_index
cell_index_lem x y = ground arith

put_cell_lem :
    (s : Screen) (x y e : ℕ)
    → IsAt s x y
    → put_cell s (cell_index s.cursor_x s.cursor_y) e
      ≡ ret (record s { cells = set s.cells (y * vga_width + x) e })
unfolding put_cell
put_cell_lem s x y e v =
    ap (λ i. put_cell s i e) (ap₂ cell_index v.at_x v.at_y ∙ cell_index_lem x y)
    ∙ need-ret (lt→ltb (y * vga_width + x) vga_size (omega (arith, v.in_x, v.in_y)))

-- What writing into the cell of the cursor and setting the cursor there leaves.
pub erase_cell_lem :
    (s : Screen) (x y : ℕ) → IsAt s x y → (t : Screen) × (erase_cell s ≡ ret t) × IsAt t x y
unfolding erase_cell vga_set_cursor
erase_cell_lem s x y v = (
  _,
  ap (λ r. r >>= λ t. ret (vga_set_cursor t t.cursor_x t.cursor_y))
      (put_cell_lem s x y (blank s) v),
  record {
    at_x = v.at_x;
    at_y = v.at_y;
    in_x = v.in_x;
    in_y = v.in_y;
    size = length-set s.cells (y * vga_width + x) (blank s) ∙ v.size;
  },
)

-- What `vga_clear` leaves: blanks in the current colour, and the cursor in the first cell.
pub vga_clear_lem : (s : Screen) → length s.cells ≡ vga_size → Ends (vga_clear s) (λ t. IsAt t 0 0)
unfolding vga_clear vga_set_cursor
vga_clear_lem s l = (
  _,
  ap
      (λ r. r >>= λ cells'. ret (
        vga_set_cursor (record s { cells = cells'; cursor_x = pos 0; cursor_y = pos 0 }) (pos 0)
          (pos 0)))
      (fill-ret vga_size 0 (blank s) s.cells (omega (arith, l))),
  record {
    at_x = refl;
    at_y = refl;
    in_x = omega arith;
    in_y = omega arith;
    size = length-filled vga_size 0 (blank s) s.cells ∙ l;
  },
)

-- The screen with a character in the cell of the cursor, and the cursor behind it.
abbrev pub typed : Screen → ℕ → ℕ → ℕ → Screen
typed s x y e = record s { cells = set s.cells (y * vga_width + x) e; cursor_x = pos (x + 1) }

pub print_char_lem :
    (s : Screen) (x y c : ℕ)
    → IsAt s x y
    → print_char s c ≡ ret (settled (typed s x y (vga_entry c s.color)))
unfolding print_char ◌+ℤ◌
print_char_lem s x y c v =
    let e = vga_entry c s.color in
    ap (λ r. r >>= λ t. settle (record t { cursor_x = t.cursor_x +ℤ pos 1 }))
      (put_cell_lem s x y e v)
    ∙ ap (λ z. settle (record s { cells = set s.cells (y * vga_width + x) e; cursor_x = z }))
        (ap (λ z. z +ℤ pos 1) v.at_x ∙ pos-add x 1)
    ∙ settle-ret (typed s x y e) (length-set s.cells (y * vga_width + x) e ∙ v.size)
