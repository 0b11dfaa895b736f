-- ===== src/Terminal/Redraw.antt =====
-- The line editor with the screen: redrawing the line ends.
use fox_os.Base.{
  ℕ, suc, ◌+◌, ◌-◌, ◌/◌, ◌%◌, ◌<◌, ◌≤◌, ◌≡◌, refl, ret, arith, Bool, true, false, length, replicate,
  take, Bool-cases, inl, inr, ltb, ◌==◌, le→leb,
}
use fox_os.Base.Int.{pos, ◌-ℤ◌}
use fox_os.Keyboard.{char_left, char_right, char_del}
use fox_os.Screen.{Screen, vga_width, vga_height, vga_size, vga_set_cursor}
use fox_os.Screen.Cursor.{IsAt}
use fox_os.Screen.Putchar.{write_OnScreen}
use fox_os.Terminal.{
  Line, edit_key, moved, redrawn, redraw_input_line, update_cursor_position, accepts, move_left,
  move_right,
}
use fox_os.Terminal.Edit.{Shows-IsInside}
use fox_os.Terminal.Inside.{
  deleted, erased, inserted, IsInside, delete-ret, erase-ret, insert-ret, deleted-room, erased-room,
  inserted-room,
}
use fox_os.Terminal.Keys.{Editor, press, Holds, edit_key-Holds}
use native.Mathlib.Nat.{mod-lt}

-- A line drawn from a cell of the screen.
pub vga_set_cursor-IsAt :
    (s : Screen) (x y : ℕ)
    → length s.cells ≡ vga_size
    → x < vga_width
    → y < vga_height
    → IsAt (vga_set_cursor s (pos x) (pos y)) x y
unfolding vga_set_cursor
vga_set_cursor-IsAt s x y h l k = record { at_x = refl; at_y = refl; in_x = l; in_y = k; size = h }

from_row : (s : Screen) (y r : ℕ) → s.cursor_y ≡ pos y → r ≤ y → s.cursor_y -ℤ pos r ≡ pos (y - r)
unfolding ◌-ℤ◌
from_row s y r e h = ground arith

redraw_ends :
    (s : Screen) (p : ℕ) (l : Line) (x y : ℕ)
    → IsAt s x y
    → (p + l.buffer_pos) / vga_width ≤ y
    → l.buffer_pos ≤ length l.input_buffer
    → (t : Screen) × (redraw_input_line s p l ≡ ret t)
unfolding redraw_input_line
redraw_ends s p l x y v h fit =
    let r = (p + l.buffer_pos) / vga_width in
    let k = p % vga_width in
    let row : s.cursor_y -ℤ pos r ≡ pos (y - r) = from_row s y r v.at_y h in
    let a =
      vga_set_cursor-IsAt s k (y - r) v.size (mod-lt p (omega arith)) (omega (arith, v.in_y)) in
    let (t, et, (tx, ty, w)) =
      write_OnScreen (replicate (suc l.buffer_pos) b' ') (vga_set_cursor s (pos k) (pos (y - r)))
        (_, _, a) in
    let b =
      vga_set_cursor-IsAt t k (y - r) w.size (mod-lt p (omega arith)) (omega (arith, v.in_y)) in
    let (u, eu, _) =
      write_OnScreen (take l.buffer_pos l.input_buffer) (vga_set_cursor t (pos k) (pos (y - r)))
        (_, _, b) in
    (
      update_cursor_position u p l,
      rw (row, et, le→leb l.buffer_pos (length l.input_buffer) fit, eu) refl,
    )

redrawn_ends :
    (s : Screen) (p : ℕ) (b : Bool) (l : Line) (x y : ℕ)
    → IsAt s x y
    → (p + l.buffer_pos) / vga_width ≤ y
    → l.buffer_pos ≤ length l.input_buffer
    → (t : Screen) × (l' : Line) × (redrawn s p b (ret l) ≡ ret (t, l'))
redrawn_ends s p true l x y v h fit =
    let (t, e) = redraw_ends s p l x y v h fit in (t, l, rw e refl)
redrawn_ends s p false l x y v h fit = (s, l, refl)

moved_ends :
    (s : Screen) (p : ℕ) (b : Bool) (l : Line)
    → (t : Screen) × (l' : Line) × (moved s p b l ≡ ret (t, l'))
moved_ends s p true l = (_, _, refl)
moved_ends s p false l = (_, _, refl)

-- No key makes the line longer by more than one byte.
buffer_pos-delete : (l : Line) → (deleted l).buffer_pos ≤ l.buffer_pos + 1
unfolding deleted
buffer_pos-delete l = ground arith

buffer_pos-erase : (l : Line) → (erased l).buffer_pos ≤ l.buffer_pos + 1
unfolding erased
buffer_pos-erase l = ground arith

buffer_pos-insert : (l : Line) (c : ℕ) → (inserted l c).buffer_pos ≤ l.buffer_pos + 1
unfolding inserted
buffer_pos-insert l c = ground arith

edit_key_ends :
    (s : Screen) (p : ℕ) (l : Line) (c x y : ℕ)
    → IsAt s x y
    → (p + l.buffer_pos + 1) / vga_width ≤ y
    → IsInside l
    → (t : Screen) × (l' : Line) × (edit_key s p l c ≡ ret (t, l'))
unfolding edit_key
edit_key_ends s p l c x y v h w = elim (Bool-cases (c == char_left)) [
  | inl k ↦ rw k (moved_ends s p (ltb 0 l.cursor_pos) (move_left l))
  | inr k ↦ elim (Bool-cases (c == char_right)) [
    | inl m ↦ rw (k, m) (moved_ends s p (ltb l.cursor_pos l.buffer_pos) (move_right l))
    | inr m ↦ elim (Bool-cases (c == char_del)) [
      | inl n ↦
          rw (k, m, n, delete-ret l w)
            (redrawn_ends s p (ltb l.cursor_pos l.buffer_pos) (deleted l) x y v
              (omega (arith, buffer_pos-delete l)) (deleted-room l w))
      | inr n ↦ elim (Bool-cases (c == 8)) [
        | inl o ↦
            rw (k, m, n, o, erase-ret l w)
              (redrawn_ends s p (ltb 0 l.cursor_pos) (erased l) x y v
                (omega (arith, buffer_pos-erase l)) (erased-room l w))
        | inr o ↦
            rw (k, m, n, o, insert-ret l c w)
              (redrawn_ends s p (accepts l c) (inserted l c) x y v
                (omega (arith, buffer_pos-insert l c)) (inserted-room l c w))
      ]
    ]
  ]
]

-- Whatever character is read, the key is handled without a write outside a buffer, and the line of
-- the terminal goes on holding what the editor holds: the arrows move the cursor by one byte and
-- stop at both ends, delete and backspace take out the byte behind and before it, and a printable
-- byte goes in before it while fewer than 255 are there; the buffer ends in NUL bytes, one at least.
-- The cursor is on the screen, in a row that has above it as many as the line with one more byte
-- goes on for.
pub edit_refines :
    (s : Screen) (prompt_length : ℕ) (l : Line) (e : Editor) (c x y : ℕ)
    → IsAt s x y
    → (prompt_length + l.buffer_pos + 1) / vga_width ≤ y
    → Holds l e
    → (t : Screen) × (l' : Line) × (edit_key s prompt_length l c ≡ ret (t, l'))
      × Holds l' (press c e)
edit_refines s p l e c x y v room h =
    let (t, l', k) = edit_key_ends s p l c x y v room (Shows-IsInside l _ e.after h) in
    (t, l', k, edit_key-Holds s p l e c h k)
