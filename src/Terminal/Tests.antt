-- ===== src/Terminal/Tests.antt =====
-- A line of the terminal and the screen behind it.
use fox_os.Base.{
  ◌∷◌, ℕ, ◌≡◌, refl, arith, true, [], ◌++◌, ret, fault, ◌>>=◌, codes, length-replicate, replicate,
}
use fox_os.Base.Int.{pos, ltb_ℤ}
use fox_os.Keyboard.{char_left}
use fox_os.Screen.{Screen, vga_size, vga_putchar}
use fox_os.Screen.Cursor.{IsAt}
use fox_os.Terminal.{Line, edit_key}
use fox_os.Terminal.Keys.{Editor, press, Holds}
use fox_os.Terminal.Redraw.{edit_refines}
use fox_os.Fs.Lookup.{slash}
use fox_os.Terminal.Args.{parse_args, build_path}
use fox_os.Terminal.Args.Words.{IsWord, parse_args_splits}
use fox_os.Terminal.Args.Paths.{build_path_overflow}
use fox_os.Terminal.Wrap.{type_above_faults}
use fox_os.Terminal.Cursor.{left_left_leaves_screen}

-- Behind the prompt of 7 bytes `helo` has been typed, and the cursor has been moved back by one.
abbrev line : Line
line = record { input_buffer = codes "helo" ++ replicate 252 0; buffer_pos = 4; cursor_pos = 3 }

abbrev helo : Editor
helo = record { before = codes "leh"; after = codes "o" }

abbrev screen : Screen
screen = record {
  cells = replicate vga_size 0;
  cursor_x = pos 10;
  cursor_y = pos 5;
  color = 7;
  outs = [];
}

screen-IsAt : IsAt screen 10 5
screen-IsAt = record {
  at_x = refl;
  at_y = refl;
  in_x = omega arith;
  in_y = omega arith;
  size = length-replicate {A = ℕ} vga_size 0;
}

line-Holds : Holds line helo
line-Holds = record { buffer = refl; end = refl; cursor = refl; room = omega arith }

edit_refines_example :
    (t : Screen) × (l' : Line) × (edit_key screen 7 line b'l' ≡ ret (t, l'))
    × Holds l' (press b'l' helo)
edit_refines_example =
    edit_refines screen 7 line helo b'l' 10 5 screen-IsAt (omega arith) line-Holds

-- A line of 200 bytes that begins in row 0, behind the prompt: it ends in row 2, and the cursor is in
-- row 1, behind 100 bytes.
abbrev long : Line
long = record {
  input_buffer = replicate 200 b'a' ++ replicate 56 0;
  buffer_pos = 200;
  cursor_pos = 100;
}

abbrev top : Screen
top = record screen { cursor_x = pos 27; cursor_y = pos 1 }

left_left_leaves_screen_example :
    (t : Screen) × (l' : Line) × ((edit_key top 7 long char_left >>= λ r.
    edit_key r.0 7 r.1 char_left)
      ≡ ret (t, l'))
    × (ltb_ℤ t.cursor_y (pos 0) ≡ true)
    × (vga_putchar t b'a' ≡ fault)
left_left_leaves_screen_example =
    left_left_leaves_screen top 7 long 1 b'a' refl (omega arith) (omega arith) (omega arith)
      (omega arith)

-- 72 bytes in row 0, behind the prompt: the byte typed next would begin row 1.
abbrev filled : Line
filled = record {
  input_buffer = replicate 72 b'a' ++ replicate 184 0;
  buffer_pos = 72;
  cursor_pos = 72;
}

abbrev row_0 : Screen
row_0 = record screen { cursor_x = pos 79; cursor_y = pos 0 }

type_above_faults_example : edit_key row_0 7 filled b'a' ≡ fault
type_above_faults_example = type_above_faults row_0 7 filled b'a' 0 refl refl (omega arith)

mkdir-IsWord : IsWord (codes "mkdir")
mkdir-IsWord = (ground arith, (ground arith, (ground arith, (ground arith, (ground arith, tt)))))

docs-IsWord : IsWord (codes "docs")
docs-IsWord = (ground arith, (ground arith, (ground arith, (ground arith, tt))))

parse_args_splits_example :
    parse_args
      (codes "mkdir" ++ (replicate 2 b' ' ++ (codes "docs" ++ (replicate 1 b' ' ++ codes "x y"))))
    ≡ ret (codes "docs", codes "x y")
parse_args_splits_example =
    parse_args_splits (codes "mkdir") (codes "ocs") (codes "x y") b'd' 1 0 mkdir-IsWord docs-IsWord
      (ground arith) (omega arith) (omega arith)

-- A directory of 480 bytes, as `cd` of an argument with many slashes leaves it, and 40 bytes more.
build_path_overflow_example :
    build_path (slash ∷ b'd' ∷ replicate 478 slash) (replicate 40 b'a') ≡ fault
build_path_overflow_example =
    build_path_overflow b'd' (replicate 478 slash) (replicate 40 b'a') refl
      (omega (arith, length-replicate {A = ℕ} 478 slash))
      (omega (arith, length-replicate {A = ℕ} 478 slash, length-replicate {A = ℕ} 40 b'a'))
