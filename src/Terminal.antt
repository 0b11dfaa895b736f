-- ===== src/Terminal.antt =====
-- The line editor of src/terminal.c: the input buffer and what the keys do to it and to the cursor
-- on the screen.
pub mod Shift
pub mod Inside
pub mod Edit
pub mod Keys
pub mod Cursor
pub mod Redraw
pub mod Wrap
pub mod Short
pub mod Args
pub mod Tests
use fox_os.Base.{
  ℕ, zero, suc, ◌+◌, ◌-◌, ◌/◌, ◌%◌, Bool, ◌&&◌, List, [], ◌∷◌, true, false, Run, ret, fault, need,
  ◌>>=◌, ltb, leb, ◌==◌, if◌then◌else◌, load, store, replicate, take, length,
}
use fox_os.Base.Int.{ℤ, pos, ◌+ℤ◌, ◌-ℤ◌}
use fox_os.Keyboard.{char_left, char_right, char_del}
use fox_os.Screen.{vga_get_cursor, Screen, vga_width, vga_set_cursor, vga_putchar, vga_write}

abbrev pub terminal_buffer_size : ℕ
terminal_buffer_size = 256

-- The statics of the input line.
pub record Line : Type 0 where
  pub input_buffer : List ℕ
  pub buffer_pos : ℕ
  pub cursor_pos : ℕ

unfoldable pub clear_buffer : Line → Line
clear_buffer l = record {
  input_buffer = replicate terminal_buffer_size 0;
  buffer_pos = 0;
  cursor_pos = 0;
}

-- `for (i = from; i < from + n; i++) input_buffer[i] = input_buffer[i + 1];`
unfoldable pub shift_left : ℕ → ℕ → List ℕ → Run (List ℕ)
shift_left zero from b = ret b
shift_left (suc n) from b =
    load b (suc from) >>= λ c. store b from c >>= λ b'. shift_left n (suc from) b'

-- `for (i = from + n; i > from; i--) input_buffer[i] = input_buffer[i - 1];`
unfoldable pub shift_right : ℕ → ℕ → List ℕ → Run (List ℕ)
shift_right zero from b = ret b
shift_right (suc n) from b =
    load b (from + n) >>= λ c. store b (suc (from + n)) c >>= λ b'. shift_right n from b'

-- CHAR_DEL: the line afterwards.
unfoldable pub delete_char : Line → Run Line
delete_char l =
    if ltb l.cursor_pos l.buffer_pos
    then (shift_left (l.buffer_pos - 1 - l.cursor_pos) l.cursor_pos l.input_buffer >>= λ b.
        store b (l.buffer_pos - 1) 0 >>= λ b'.
        ret (record l { input_buffer = b'; buffer_pos = l.buffer_pos - 1 }))
    else ret l

-- The backspace key.
unfoldable pub erase_char : Line → Run Line
erase_char l =
    if ltb 0 l.cursor_pos
    then (shift_left (l.buffer_pos - l.cursor_pos) (l.cursor_pos - 1) l.input_buffer >>= λ b.
        store b (l.buffer_pos - 1) 0 >>= λ b'. ret (record {
          input_buffer = b';
          buffer_pos = l.buffer_pos - 1;
          cursor_pos = l.cursor_pos - 1;
        }))
    else ret l

-- `buffer_pos < TERMINAL_BUFFER_SIZE - 1 && c >= ' ' && c <= '~'`
abbrev pub accepts : Line → ℕ → Bool
accepts l c = ltb l.buffer_pos (terminal_buffer_size - 1) && leb b' ' c && leb c b'~'

-- An ordinary character.
unfoldable pub insert_char : Line → ℕ → Run Line
insert_char l c =
    if accepts l c
    then (shift_right (l.buffer_pos - l.cursor_pos) l.cursor_pos l.input_buffer >>= λ b.
        store b l.cursor_pos c >>= λ b'. ret (record {
          input_buffer = b';
          buffer_pos = l.buffer_pos + 1;
          cursor_pos = l.cursor_pos + 1;
        }))
    else ret l

unfoldable pub move_left : Line → Line
move_left l = if ltb 0 l.cursor_pos then record l { cursor_pos = l.cursor_pos - 1 } else l

unfoldable pub move_right : Line → Line
move_right l =
    if ltb l.cursor_pos l.buffer_pos then record l { cursor_pos = l.cursor_pos + 1 } else l

-- `y - (prompt_length + buffer_pos) / VGA_WIDTH + (prompt_length + cursor_pos) / VGA_WIDTH`
unfoldable pub new_row : ℤ → ℕ → Line → ℤ
unfolding ◌+ℤ◌ ◌-ℤ◌
new_row y prompt_length l =
    y
    -ℤ pos ((prompt_length + l.buffer_pos) / vga_width)
    +ℤ pos ((prompt_length + l.cursor_pos) / vga_width)

unfoldable pub update_cursor_position : Screen → ℕ → Line → Screen
update_cursor_position s prompt_length l =
    vga_set_cursor s (pos ((prompt_length + l.cursor_pos) % vga_width))
      (new_row (vga_get_cursor s).1 prompt_length l)

unfoldable pub redraw_input_line : Screen → ℕ → Line → Run Screen
unfolding ◌-ℤ◌
redraw_input_line s prompt_length l =
    let y = (vga_get_cursor s).1 -ℤ pos ((prompt_length + l.buffer_pos) / vga_width) in
    let x = pos (prompt_length % vga_width) in
    vga_write (vga_set_cursor s x y) (replicate (suc l.buffer_pos) b' ') >>= λ t.
    need (leb l.buffer_pos (length l.input_buffer))
      (vga_write (vga_set_cursor t x y) (take l.buffer_pos l.input_buffer))
    >>= λ u. ret (update_cursor_position u prompt_length l)

-- The cursor or the whole line is drawn anew where the line has changed.
abbrev pub moved : Screen → ℕ → Bool → Line → Run (Screen × Line)
moved s prompt_length true l = ret (update_cursor_position s prompt_length l, l)
moved s prompt_length false l = ret (s, l)

abbrev pub redrawn : Screen → ℕ → Bool → Run Line → Run (Screen × Line)
redrawn s prompt_length true r = r >>= λ l. redraw_input_line s prompt_length l >>= λ t. ret (t, l)
redrawn s prompt_length false r = r >>= λ l. ret (s, l)

-- `terminal_run` once a character has been read that is not 0 and not the line feed, which runs the
-- command.
unfoldable pub edit_key : Screen → ℕ → Line → ℕ → Run (Screen × Line)
edit_key s prompt_length l c =
    if c == char_left
    then moved s prompt_length (ltb 0 l.cursor_pos) (move_left l)
    else if c == char_right
    then moved s prompt_length (ltb l.cursor_pos l.buffer_pos) (move_right l)
    else if c == char_del
    then redrawn s prompt_length (ltb l.cursor_pos l.buffer_pos) (delete_char l)
    else if c == 8
    then redrawn s prompt_length (ltb 0 l.cursor_pos) (erase_char l)
    else redrawn s prompt_length (accepts l c) (insert_char l c)
