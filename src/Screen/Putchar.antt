-- ===== src/Screen/Putchar.antt =====
-- `vga_putchar` keeps the cursor on the screen and writes inside the buffer.
use fox_os.Base.{
  ℕ, ◌+◌, ◌-◌, ◌*◌, ◌/◌, ◌<◌, ◌≡◌, refl, sym, ap, ◌∙◌, List, [], ◌∷◌, arith, length-set, ret, ◌==◌,
  Bool-cases, inl, inr, Run,
}
use fox_os.Base.Int.{ℤ, pos, ◌+ℤ◌, ◌-ℤ◌, ltb_ℤ}
use fox_os.Screen.{
  Screen, vga_width, vga_height, settle, tab_stop, erase_cell, backspace, print_char, vga_putchar,
  vga_write, vga_entry,
}
use fox_os.Screen.Cursor.{
  IsAt, OnScreen, settled_lem, settle-ret, pos-add, pos-sub_one, positive, erase_cell_lem, typed,
  print_char_lem,
}

abbrev Prints : Run Screen → Type 0
Prints r = (t : Screen) × (r ≡ ret t) × OnScreen t

module _ (s : Screen) (x y : ℕ) (v : IsAt s x y) where
  newline-Prints : Prints (settle (record s { cursor_x = pos 0; cursor_y = s.cursor_y +ℤ pos 1 }))
  newline-Prints =
      let w = record s { cursor_x = pos 0; cursor_y = s.cursor_y +ℤ pos 1 } in
      (
        _,
        settle-ret w v.size,
        (_, _, settled_lem w 0 (y + 1) refl (ap (λ z. z +ℤ pos 1) v.at_y ∙ pos-add y 1) v.size),
      )

  return-Prints : Prints (settle (record s { cursor_x = pos 0 }))
  return-Prints = (
    _,
    settle-ret (record s { cursor_x = pos 0 }) v.size,
    (_, _, settled_lem (record s { cursor_x = pos 0 }) 0 y refl v.at_y v.size),
  )

  tab-Prints : Prints (settle (record s { cursor_x = tab_stop (s.cursor_x +ℤ pos 8) }))
  unfolding tab_stop
  tab-Prints =
      let w = record s { cursor_x = tab_stop (s.cursor_x +ℤ pos 8) } in
      (
        _,
        settle-ret w v.size,
        (
          _,
          _,
          settled_lem w ((x + 8) / 8 * 8) y
              (ap tab_stop (ap (λ z. z +ℤ pos 8) v.at_x ∙ pos-add x 8)) v.at_y v.size,
        ),
      )

  char-Prints : (c : ℕ) → Prints (print_char s c)
  char-Prints c =
      let e = vga_entry c s.color in
      (
        _,
        print_char_lem s x y c v,
        (
          _,
          _,
          settled_lem (typed s x y e) (x + 1) y refl v.at_y
              (length-set s.cells (y * vga_width + x) e ∙ v.size),
        ),
      )

  erase-Prints :
      (x' y' : ℕ)
      → x' < vga_width
      → y' < vga_height
      → (z w : ℤ) → z ≡ pos x'
      → w ≡ pos y'
      → Prints (erase_cell (record s { cursor_x = z; cursor_y = w }))
  erase-Prints x' y' hx hy z w ez ew =
      let (t, e, at) =
        erase_cell_lem (record s { cursor_x = z; cursor_y = w }) x' y'
          (record { at_x = ez; at_y = ew; in_x = hx; in_y = hy; size = v.size }) in
      (t, e, (x', y', at))

  -- At the left edge the cursor goes back to the end of the line above, if there is one.
  backspace-Prints : Prints (backspace s)
  unfolding backspace
  backspace-Prints = elim (Bool-cases (ltb_ℤ (pos 0) s.cursor_x)) [
    | inl e ↦
        let left : 0 < x = positive x (ap (ltb_ℤ (pos 0)) (sym v.at_x) ∙ e) in
        rw e (
          erase-Prints (x - 1) y (omega (arith, v.in_x)) v.in_y (s.cursor_x -ℤ pos 1) s.cursor_y
            (ap (λ z. z -ℤ pos 1) v.at_x ∙ pos-sub_one x left) v.at_y)
    | inr e ↦ elim (Bool-cases (ltb_ℤ (pos 0) s.cursor_y)) [
      | inl f ↦
          let above : 0 < y = positive y (ap (ltb_ℤ (pos 0)) (sym v.at_y) ∙ f) in
          rw (e, f)
            (erase-Prints 79 (y - 1) (omega arith) (omega (arith, v.in_y)) (pos 79)
              (s.cursor_y -ℤ pos 1) refl (ap (λ z. z -ℤ pos 1) v.at_y ∙ pos-sub_one y above))
      | inr f ↦ rw (e, f) (_, settle-ret s v.size, (_, _, settled_lem s x y v.at_x v.at_y v.size))
    ]
  ]

  putchar-Prints : (c : ℕ) → Prints (vga_putchar s c)
  unfolding vga_putchar
  putchar-Prints c = elim (Bool-cases (c == b'\n')) [
    | inl e ↦ rw e newline-Prints
    | inr e ↦ elim (Bool-cases (c == 13)) [
      | inl f ↦ rw (e, f) return-Prints
      | inr f ↦ elim (Bool-cases (c == 9)) [
        | inl g ↦ rw (e, f, g) tab-Prints
        | inr g ↦ elim (Bool-cases (c == 8)) [
          | inl h ↦ rw (e, f, g, h) backspace-Prints
          | inr h ↦ rw (e, f, g, h) (char-Prints c)
        ]
      ]
    ]
  ]

-- With the cursor on the screen and 2000 cells in the buffer, `vga_write` and `vga_puts` of any
-- bytes, controls included, come to their end, read and write inside the buffer only, scrolling
-- included, and leave the cursor on the screen and 2000 cells in the buffer.
pub write_OnScreen :
    (str : List ℕ) (s : Screen) → OnScreen s → (t : Screen) × (vga_write s str ≡ ret t) × OnScreen t
unfolding vga_write
write_OnScreen [] s o = (s, refl, o)
write_OnScreen (c ∷ str) s o =
    let (x, y, v) = o in let (t, e, p) = putchar-Prints s x y v c in rw e (write_OnScreen str t p)
