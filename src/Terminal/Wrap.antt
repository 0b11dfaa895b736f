-- ===== src/Terminal/Wrap.antt =====
-- A line that grows over the end of its row near the top of the screen.
use fox_os.Base.{
  Run, ret, Leaves, ret-Leaves, then-Leaves, store, ℕ, suc, ◌+◌, ◌-◌, ◌/◌, ◌%◌, ◌<◌, ◌≤◌, ◌≡◌, refl,
  fault, arith, true, replicate, ne→==,
}
use fox_os.Base.Int.{pos, negsuc, ◌-ℤ◌}
use fox_os.Keyboard.{char_left, char_right, char_del}
use fox_os.Screen.{Screen, vga_width, vga_set_cursor, vga_write}
use fox_os.Terminal.{Line, accepts, insert_char, shift_right, redrawn, redraw_input_line, edit_key}
use fox_os.Terminal.Cursor.{above_screen}
use native.Mathlib.Nat.{mod-lt}

up_from :
    (s : Screen) (y r : ℕ) → s.cursor_y ≡ pos y → y < r → s.cursor_y -ℤ pos r ≡ negsuc (r - y - 1)
unfolding ◌-ℤ◌
up_from s y r e h = ground arith

write_above :
    (s : Screen) (x y n : ℕ)
    → x < vga_width
    → vga_write (vga_set_cursor s (pos x) (negsuc y)) (replicate (suc n) b' ') ≡ fault
unfolding vga_write vga_set_cursor
write_above s x y n l =
    rw (above_screen (vga_set_cursor s (pos x) (negsuc y)) x y b' ' refl refl l (omega arith)) refl

redraw_above :
    (s : Screen) (p : ℕ) (l : Line) (y : ℕ)
    → s.cursor_y ≡ pos y
    → y < (p + l.buffer_pos) / vga_width
    → redraw_input_line s p l ≡ fault
unfolding redraw_input_line
redraw_above s p l y e h =
    rw
      (
        up_from s y ((p + l.buffer_pos) / vga_width) e h,
        write_above s (p % vga_width) _ l.buffer_pos (mod-lt p (omega arith)),
      )
      refl

-- What the line is after the byte, if the bytes behind it stay in the buffer.
insert-longer :
    (l : Line) (c : ℕ)
    → accepts l c ≡ true
    → Leaves (insert_char l c) (λ l'. l'.buffer_pos ≡ l.buffer_pos + 1)
unfolding insert_char
insert-longer l c e = rw e (
    then-Leaves (shift_right (l.buffer_pos - l.cursor_pos) l.cursor_pos l.input_buffer)
      (λ b. then-Leaves (store b l.cursor_pos c) (λ b'. ret-Leaves refl)))

redrawn_above :
    (s : Screen) (p : ℕ) (r : Run Line) (n y : ℕ)
    → s.cursor_y ≡ pos y
    → y < (p + n) / vga_width
    → Leaves r (λ l. l.buffer_pos ≡ n)
    → redrawn s p true r ≡ fault
redrawn_above s p fault n y e h v = refl
redrawn_above s p (ret l) n y e h v =
    rw (redraw_above s p l y e (omega (arith, h, v.value l refl))) refl

-- A printable byte that makes the line as long as more rows than there are above the row of the
-- cursor is written before video memory: the row where the line begins is counted from the row where
-- the cursor is, as if the cursor were at the end of the longer line already.
pub type_above_faults :
    (s : Screen) (p : ℕ) (l : Line) (c y : ℕ)
    → s.cursor_y ≡ pos y
    → accepts l c ≡ true
    → y < (p + l.buffer_pos + 1) / vga_width
    → edit_key s p l c ≡ fault
unfolding edit_key
type_above_faults s p l c y e a h =
    let printable : b' ' ≤ c = ground arith in
    rw
      (
        ne→== c char_left (λ z. omega arith),
        ne→== c char_right (λ z. omega arith),
        ne→== c char_del (λ z. omega arith),
        ne→== c 8 (λ z. omega arith),
        a,
      )
      (redrawn_above s p (insert_char l c) (l.buffer_pos + 1) y e (omega (arith, h))
        (insert-longer l c a))
