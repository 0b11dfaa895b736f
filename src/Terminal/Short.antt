-- ===== src/Terminal/Short.antt =====
-- A line that fits in its row, with the prompt before it.
use fox_os.Base.{
  length, le→leb, ℕ, suc, ◌+◌, ◌/◌, ◌%◌, ◌<◌, ◌≤◌, ◌≡◌, refl, ret, arith, true, replicate, take,
  ne→==,
}
use fox_os.Base.Int.{pos, ◌-ℤ◌, ◌+ℤ◌}
use fox_os.Keyboard.{char_left, char_right, char_del}
use fox_os.Screen.{Screen, vga_width, vga_set_cursor}
use fox_os.Screen.Cursor.{OnScreen}
use fox_os.Screen.Putchar.{write_OnScreen}
use fox_os.Terminal.Inside.{inserted, IsInside, insert-ret, inserted-room}
use fox_os.Terminal.{Line, edit_key, redraw_input_line, update_cursor_position, new_row, accepts}
use fox_os.Terminal.Redraw.{vga_set_cursor-IsAt}
use native.Mathlib.Nat.{mod-lt}

-- The row of the cursor stays the same.
same_row :
    (s : Screen) (p y : ℕ) (l : Line)
    → s.cursor_y ≡ pos y
    → p + l.buffer_pos < vga_width
    → l.cursor_pos ≤ l.buffer_pos
    → new_row s.cursor_y p l ≡ pos y
unfolding new_row ◌-ℤ◌ ◌+ℤ◌
same_row s p y l e h c =
    let q : (p + l.buffer_pos) / vga_width ≡ 0 = omega arith in
    let q' : (p + l.cursor_pos) / vga_width ≡ 0 = omega arith in rw (e, q, q') (ground arith)

same_start :
    (s : Screen) (n y : ℕ)
    → s.cursor_y ≡ pos y
    → n < vga_width
    → s.cursor_y -ℤ pos (n / vga_width) ≡ pos y
unfolding ◌-ℤ◌
same_start s n y e h = let q : n / vga_width ≡ 0 = omega arith in rw (e, q) (ground arith)

update-OnScreen :
    (s : Screen) (p : ℕ) (l : Line)
    → OnScreen s
    → p + l.buffer_pos < vga_width
    → l.cursor_pos ≤ l.buffer_pos
    → OnScreen (update_cursor_position s p l)
unfolding update_cursor_position
update-OnScreen s p l (x, y, v) h c = rw (same_row s p y l v.at_y h c) (
  _,
  _,
  vga_set_cursor-IsAt s ((p + l.cursor_pos) % vga_width) y v.size
      (mod-lt (p + l.cursor_pos) (omega arith)) v.in_y,
)

redraw-OnScreen :
    (s : Screen) (p : ℕ) (l : Line)
    → OnScreen s
    → p + l.buffer_pos < vga_width
    → l.cursor_pos ≤ l.buffer_pos
    → l.buffer_pos ≤ length l.input_buffer
    → (t : Screen) × (redraw_input_line s p l ≡ ret t) × OnScreen t
unfolding redraw_input_line
redraw-OnScreen s p l (x, y, v) h c fit =
    let k = p % vga_width in
    let row = same_start s (p + l.buffer_pos) y v.at_y h in
    let (t, et, (tx, ty, w)) =
      write_OnScreen (replicate (suc l.buffer_pos) b' ') (vga_set_cursor s (pos k) (pos y))
        (_, _, vga_set_cursor-IsAt s k y v.size (mod-lt p (omega arith)) v.in_y) in
    let (u, eu, o) =
      write_OnScreen (take l.buffer_pos l.input_buffer) (vga_set_cursor t (pos k) (pos y))
        (_, _, vga_set_cursor-IsAt t k y w.size (mod-lt p (omega arith)) v.in_y) in
    (
      update_cursor_position u p l,
      rw (row, et, le→leb l.buffer_pos (length l.input_buffer) fit, eu) refl,
      update-OnScreen u p l o h c,
    )

insert-sizes :
    (l : Line) (c : ℕ)
    → accepts l c ≡ true
    → ((inserted l c).buffer_pos ≡ l.buffer_pos + 1)
      × ((inserted l c).cursor_pos ≡ l.cursor_pos + 1)
unfolding inserted
insert-sizes l c a = rw a (refl, refl)

-- A printable byte goes in, and the cursor stays on the screen.
pub type_short :
    (s : Screen) (p : ℕ) (l : Line) (c : ℕ)
    → OnScreen s
    → accepts l c ≡ true
    → p + l.buffer_pos + 1 < vga_width
    → IsInside l
    → (t : Screen) × (edit_key s p l c ≡ ret (t, inserted l c)) × OnScreen t
unfolding edit_key
type_short s p l c v a h k =
    let printable : b' ' ≤ c = ground arith in
    let (n, m) = insert-sizes l c a in
    let (t, e, w) =
      redraw-OnScreen s p (inserted l c) v (omega (arith, n)) (omega (arith, n, m, k.cursor))
        (inserted-room l c k) in
    (
      t,
      rw
          (
            ne→== c char_left (λ z. omega arith),
            ne→== c char_right (λ z. omega arith),
            ne→== c char_del (λ z. omega arith),
            ne→== c 8 (λ z. omega arith),
            a,
            insert-ret l c k,
            e,
          )
          refl,
      w,
    )
