-- ===== src/Terminal/Cursor.antt =====
-- The row of the cursor while a line of several rows is edited.
use fox_os.Base.{
  ℕ, ◌+◌, ◌-◌, ◌*◌, ◌/◌, ◌%◌, ◌<◌, ◌≤◌, ◌≡◌, refl, ap, ap₂, ◌∙◌, arith, true, ret, fault, ◌>>=◌,
  ltb, if◌then◌else◌,
}
use fox_os.Base.Int.{pos, negsuc, ◌+ℤ◌, ◌-ℤ◌, ltb_ℤ}
use fox_os.Screen.{
  Screen, vga_width, vga_set_cursor, vga_putchar, print_char, put_cell, cell_index, vga_entry,
  settle,
}
use fox_os.Keyboard.{char_left}
use fox_os.Terminal.{Line, move_left, new_row, update_cursor_position, edit_key}

-- The row is computed from the row where the cursor is, as if that were the row of the line's end.
new_row_lem :
    (y : ℕ) (p : ℕ) (l : Line)
    → let e = (p + l.buffer_pos) / vga_width in
      let r = (p + l.cursor_pos) / vga_width in
      new_row (pos y) p l ≡ (if ltb (y + r) e then negsuc (e - (y + r) - 1) else pos (y + r - e))
unfolding new_row ◌+ℤ◌ ◌-ℤ◌
new_row_lem y p l = ground arith

row_on :
    (y p : ℕ) (l : Line)
    → (p + l.buffer_pos) / vga_width ≤ y + (p + l.cursor_pos) / vga_width
    → new_row (pos y) p l
      ≡ pos (y + (p + l.cursor_pos) / vga_width - (p + l.buffer_pos) / vga_width)
row_on y p l h = ground (arith, new_row_lem y p l)

row_above :
    (y p : ℕ) (l : Line)
    → y + (p + l.cursor_pos) / vga_width < (p + l.buffer_pos) / vga_width
    → new_row (pos y) p l
      ≡ negsuc ((p + l.buffer_pos) / vga_width - (y + (p + l.cursor_pos) / vga_width) - 1)
row_above y p l h = ground (arith, new_row_lem y p l)

left_key :
    (s : Screen) (p : ℕ) (l : Line)
    → 0 < l.cursor_pos
    → edit_key s p l char_left
      ≡ ret (
        update_cursor_position s p (record l { cursor_pos = l.cursor_pos - 1 }),
        record l { cursor_pos = l.cursor_pos - 1 },
      )
unfolding edit_key move_left
left_key s p l h = ground arith

above_cell :
    (x y : ℕ)
    → x < vga_width
    → cell_index (pos x) (negsuc y) ≡ negsuc (y * vga_width + (vga_width - 1) - x)
unfolding cell_index ◌+ℤ◌
above_cell x y l = ground arith

above_print :
    (s : Screen) (x y c : ℕ)
    → s.cursor_x ≡ pos x
    → s.cursor_y ≡ negsuc y
    → x < vga_width
    → print_char s c ≡ fault
unfolding print_char put_cell
above_print s x y c hx hy l =
    ap
      (λ i. put_cell s i (vga_entry c s.color) >>= λ t.
        settle (record t { cursor_x = t.cursor_x +ℤ pos 1 }))
      (ap₂ cell_index hx hy ∙ above_cell x y l)

pub above_screen :
    (s : Screen) (x y c : ℕ)
    → s.cursor_x ≡ pos x
    → s.cursor_y ≡ negsuc y
    → x < vga_width
    → 14 ≤ c
    → vga_putchar s c ≡ fault
unfolding vga_putchar
above_screen s x y c hx hy l h = ground (arith, above_print s x y c hx hy l)

-- The left key takes the row where the cursor is for the row of the line's end. Two left keys in a
-- line whose end is on a later row than the cursor take the difference off twice: where that is more
-- than the row of the cursor, it is above the screen then, and the next printed byte is
-- written outside the buffer.
pub left_left_leaves_screen :
    (s : Screen) (p : ℕ) (l : Line) (y c : ℕ)
    → s.cursor_y ≡ pos y
    → 2 ≤ l.cursor_pos
    → (p + l.buffer_pos) / vga_width ≤ y + (p + (l.cursor_pos - 1)) / vga_width
    → y + (p + (l.cursor_pos - 1)) / vga_width + (p + (l.cursor_pos - 1 - 1)) / vga_width
      < (p + l.buffer_pos) / vga_width + (p + l.buffer_pos) / vga_width
    → 14 ≤ c
    → (t : Screen) × (l' : Line) × ((edit_key s p l char_left >>= λ r. edit_key r.0 p r.1 char_left)
        ≡ ret (t, l'))
      × (ltb_ℤ t.cursor_y (pos 0) ≡ true)
      × (vga_putchar t c ≡ fault)
unfolding update_cursor_position vga_set_cursor
left_left_leaves_screen s p l y c hy two stay leave h =
    let r1 = (p + (l.cursor_pos - 1)) / vga_width in
    let r2 = (p + (l.cursor_pos - 1 - 1)) / vga_width in
    let e = (p + l.buffer_pos) / vga_width in
    let l1 : Line = record l { cursor_pos = l.cursor_pos - 1 } in
    let s1 = update_cursor_position s p l1 in
    let l2 : Line = record l1 { cursor_pos = l1.cursor_pos - 1 } in
    let s2 = update_cursor_position s1 p l2 in
    let y1 : s1.cursor_y ≡ pos (y + r1 - e) = ap (λ z. new_row z p l1) hy ∙ row_on y p l1 stay in
    let y2 : s2.cursor_y ≡ negsuc (e - (y + r1 - e + r2) - 1) =
      ap (λ z. new_row z p l2) y1 ∙ row_above (y + r1 - e) p l2 (omega arith) in
    (
      s2,
      l2,
      ground (arith, left_key s p l (omega arith), left_key s1 p l1 (omega arith)),
      ground (arith, y2),
      above_screen s2 ((p + l2.cursor_pos) % vga_width) (e - (y + r1 - e + r2) - 1) c refl y2
          (ground arith) h,
    )
