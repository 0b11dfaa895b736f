-- ===== src/Terminal/Inside.antt =====
-- The keys that change the line of src/terminal.c, where the bytes that they move stay inside the
-- input buffer.
use fox_os.Base.{
  ℕ, ◌+◌, ◌-◌, ◌<◌, ◌≡◌, refl, arith, length, ltb, ltb→lt, set, store-set, length-set, ret,
  Bool-cases, inl, inr, if◌then◌else◌, ◌≤◌,
}
use fox_os.Terminal.{Line, delete_char, erase_char, insert_char, accepts}
use fox_os.Terminal.Shift.{
  shifted_left, shifted_right, shift_left-ret, shift_right-ret, length-shifted_left,
  length-shifted_right,
}

-- The line after a key, where the bytes that move stay inside the buffer.
unfoldable pub deleted : Line → Line
deleted l =
    if ltb l.cursor_pos l.buffer_pos
    then record l {
      input_buffer =
          set (shifted_left (l.buffer_pos - 1 - l.cursor_pos) l.cursor_pos l.input_buffer)
            (l.buffer_pos - 1) 0;
      buffer_pos = l.buffer_pos - 1;
    }
    else l

unfoldable pub erased : Line → Line
erased l =
    if ltb 0 l.cursor_pos
    then record {
      input_buffer =
          set (shifted_left (l.buffer_pos - l.cursor_pos) (l.cursor_pos - 1) l.input_buffer)
            (l.buffer_pos - 1) 0;
      buffer_pos = l.buffer_pos - 1;
      cursor_pos = l.cursor_pos - 1;
    }
    else l

unfoldable pub inserted : Line → ℕ → Line
inserted l c =
    if accepts l c
    then record {
      input_buffer =
          set (shifted_right (l.buffer_pos - l.cursor_pos) l.cursor_pos l.input_buffer) l.cursor_pos
            c;
      buffer_pos = l.buffer_pos + 1;
      cursor_pos = l.cursor_pos + 1;
    }
    else l

-- The cursor stands in the text, and the text ends before the buffer does.
pub record IsInside (l : Line) : Type 0 where
  pub cursor : l.cursor_pos ≤ l.buffer_pos
  pub room : l.buffer_pos < length l.input_buffer

pub delete-ret : (l : Line) → IsInside l → delete_char l ≡ ret (deleted l)
unfolding delete_char deleted
delete-ret l v = elim (Bool-cases (ltb l.cursor_pos l.buffer_pos)) [
  | inr e ↦ rw e refl
  | inl e ↦
      let n = l.buffer_pos - 1 - l.cursor_pos in
      let below = ltb→lt l.cursor_pos l.buffer_pos e in
      rw
        (
          e,
          shift_left-ret n l.cursor_pos l.input_buffer (omega (arith, v.room)),
          store-set (shifted_left n l.cursor_pos l.input_buffer) (l.buffer_pos - 1) 0
              (omega (arith, v.room, length-shifted_left n l.cursor_pos l.input_buffer)),
        )
        refl
]

pub erase-ret : (l : Line) → IsInside l → erase_char l ≡ ret (erased l)
unfolding erase_char erased
erase-ret l v = elim (Bool-cases (ltb 0 l.cursor_pos)) [
  | inr e ↦ rw e refl
  | inl e ↦
      let n = l.buffer_pos - l.cursor_pos in
      let above = ltb→lt 0 l.cursor_pos e in
      rw
        (
          e,
          shift_left-ret n (l.cursor_pos - 1) l.input_buffer (omega (arith, v.room, v.cursor)),
          store-set (shifted_left n (l.cursor_pos - 1) l.input_buffer) (l.buffer_pos - 1) 0
              (omega (arith, v.room, length-shifted_left n (l.cursor_pos - 1) l.input_buffer)),
        )
        refl
]

pub insert-ret : (l : Line) (c : ℕ) → IsInside l → insert_char l c ≡ ret (inserted l c)
unfolding insert_char inserted
insert-ret l c v = elim (Bool-cases (accepts l c)) [
  | inr e ↦ rw e refl
  | inl e ↦
      let n = l.buffer_pos - l.cursor_pos in
      rw
        (
          e,
          shift_right-ret n l.cursor_pos l.input_buffer (omega (arith, v.room, v.cursor)),
          store-set (shifted_right n l.cursor_pos l.input_buffer) l.cursor_pos c
              (omega (arith, v.room, v.cursor, length-shifted_right n l.cursor_pos l.input_buffer)),
        )
        refl
]

-- What the line holds stays inside the buffer.
pub deleted-room :
    (l : Line) → IsInside l → (deleted l).buffer_pos ≤ length (deleted l).input_buffer
unfolding deleted
deleted-room l v =
    let n = l.buffer_pos - 1 - l.cursor_pos in
    let b = shifted_left n l.cursor_pos l.input_buffer in
    ground (
      arith,
      v.room,
      length-set b (l.buffer_pos - 1) 0,
      length-shifted_left n l.cursor_pos l.input_buffer,
    )

pub erased-room : (l : Line) → IsInside l → (erased l).buffer_pos ≤ length (erased l).input_buffer
unfolding erased
erased-room l v =
    let n = l.buffer_pos - l.cursor_pos in
    let b = shifted_left n (l.cursor_pos - 1) l.input_buffer in
    ground (
      arith,
      v.room,
      length-set b (l.buffer_pos - 1) 0,
      length-shifted_left n (l.cursor_pos - 1) l.input_buffer,
    )

pub inserted-room :
    (l : Line) (c : ℕ) → IsInside l → (inserted l c).buffer_pos ≤ length (inserted l c).input_buffer
unfolding inserted
inserted-room l c v =
    let n = l.buffer_pos - l.cursor_pos in
    let b = shifted_right n l.cursor_pos l.input_buffer in
    ground (
      arith,
      v.room,
      length-set b l.cursor_pos c,
      length-shifted_right n l.cursor_pos l.input_buffer,
    )
