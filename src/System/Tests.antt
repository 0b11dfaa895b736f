-- ===== src/System/Tests.antt =====
-- The kernel at its start, and before a command.
pub mod Reached
use fox_os.Base.{
  length, map, true, false, All, ◌>>=◌, ℕ, ◌+◌, ◌≡◌, refl, arith, false, [], ◌∷◌, ◌++◌, ret, Ends,
  codes, length-replicate, replicate, some,
}
use fox_os.Base.Int.{pos}
use fox_os.Fs.{Fs, find_child}
use fox_os.Fs.Tests.{array, array-IsTable, booted, booted-IsTree, docs, with_dir}
use fox_os.Fs.Entries.{create_at_path, fs_mkdir, last_slash, last_slash_from, create_from}
use fox_os.Fs.Lookup.{fs_parse_path, walk, get_next_path_component}
use fox_os.Fs.Table.{fs_create_file}
use fox_os.Keyboard.{
  char_of, scancode_to_char, key_left, keyboard_read, keyboard_get_scancode, keyboard_wait, handle,
}
use fox_os.System.Reach.Rounds.{Reaches, at_once, round, IsOrderly}
use fox_os.System.Typing.{IsTyping, IsPlain, IsBeside, strokes}
use fox_os.System.Session.{typed_command_runs, enter_code}
use fox_os.Screen.{Screen, vga_size}
use fox_os.Screen.Cursor.{OnScreen}
use fox_os.System.{System}
use fox_os.System.Command.{Next, goes_on, execute}
use fox_os.System.Compose.{mkdir_then_cd}
use fox_os.System.FirstCommand.{typed, first_command}
use fox_os.System.Loop.{
  run_char, terminal_run, start_and_run, rounds, after_command, enter_key, start,
}
use fox_os.System.Safe.{IsReady}
use fox_os.System.Safe.Enter.{StaysClear, Shows-IsLine, enter_safe}
use fox_os.System.Start.{IsStarted, IsTree-IsSound, root-IsPath, start_ends}
use fox_os.Terminal.{Line, edit_key, move_left}
use fox_os.Terminal.Args.{build_path}
use fox_os.Terminal.Args.Words.{IsWord}
use fox_os.Terminal.Edit.{Shows}
use fox_os.Text.{strcmp}

abbrev screen : Screen
screen = record {
  cells = replicate vga_size 0;
  cursor_x = pos 11;
  cursor_y = pos 3;
  color = 7;
  outs = [];
}

pub screen-OnScreen : OnScreen screen
screen-OnScreen = (
  11,
  3,
  record {
    at_x = refl;
    at_y = refl;
    in_x = omega arith;
    in_y = omega arith;
    size = length-replicate {A = ℕ} vga_size 0;
  },
)

-- Behind the prompt stands `mkdir docs`.
abbrev line : Line
line = record {
  input_buffer = codes "mkdir docs" ++ replicate 246 0;
  buffer_pos = 10;
  cursor_pos = 10;
}

line-Shows : Shows line (codes "mkdir docs") []
line-Shows = record { buffer = refl; end = refl; cursor = refl; room = omega arith }

abbrev pub system : Fs → System
system fs = record {
  screen = screen;
  keyboard = record { shift_pressed = false; last_scancode = 0; key_held = false };
  fs = fs;
  line = line;
  prompt_length = 7;
  current_dir = codes "/";
  current_color = 10;
}

system-IsReady : IsReady (system booted) 1
system-IsReady = record {
  on_screen = screen-OnScreen;
  sound = IsTree-IsSound booted-IsTree;
  directory = root-IsPath (codes "/") refl;
}

enter_safe_example : Ends (enter_key (system booted)) (StaysClear (codes "mkdir docs") (1 + 256))
unfolding strcmp
enter_safe_example =
    enter_safe (system booted) 1 (omega arith) system-IsReady
      (Shows-IsLine line (codes "mkdir docs") [] line-Shows) refl

-- One scan code waits before the first call of `keyboard_init`, none before the second.
start_ends_example :
    Ends
      (start
        (system array)
        (record { status = (1 ∷ []) ++ (0 ∷ ([] ++ (0 ∷ []))); codes = (30 ∷ []) ++ ([] ++ []) }))
      (λ r.
        (k' : System) × (r ≡ (goes_on k', record { status = []; codes = [] }))
        × IsStarted (system array).keyboard k')
start_ends_example =
    start_ends (system array) (1 ∷ []) [] 0 0 [] (30 ∷ []) [] []
      (length-replicate {A = ℕ} vga_size 0) array-IsTable refl (refl, tt) refl refl tt refl refl

docs-IsWord : IsWord docs
docs-IsWord = (ground arith, (ground arith, (ground arith, (ground arith, tt))))

docs_path : build_path (codes "/") docs ≡ ret (codes "/docs")
unfolding build_path
docs_path = refl

made_docs : fs_mkdir booted (codes "/docs") ≡ ret (some 1, with_dir)
unfolding fs_mkdir create_at_path last_slash last_slash_from create_from fs_parse_path walk
    get_next_path_component fs_create_file find_child strcmp
made_docs = refl

mkdir_then_cd_example :
    (k' : System) × (execute (system booted) (codes "mkdir " ++ docs) ≡ ret (goes_on k'))
    × (execute k' (codes "cd " ++ docs)
        ≡ ret (goes_on (record (system booted) { fs = with_dir; current_dir = codes "/docs" })))
mkdir_then_cd_example =
    mkdir_then_cd (system booted) 1 b'd' (codes "ocs") (codes "/docs") 1 with_dir (omega arith)
      system-IsReady docs-IsWord (omega arith) docs_path made_docs

-- Nothing has been typed behind the prompt.
abbrev pub waiting : System
waiting = record (system booted) {
  line = record { input_buffer = replicate 256 0; buffer_pos = 0; cursor_pos = 0 };
}

pub waiting-IsTyping : IsTyping waiting false []
waiting-IsTyping = record {
  on_screen = screen-OnScreen;
  line = record { buffer = refl; end = refl; cursor = refl; room = omega arith };
  prompt = refl;
  free = refl;
  shifted = refl;
}

-- The keys `l` and `s`.
ls_keys-All : All (IsPlain false) (0x26 ∷ 0x1f ∷ [])
unfolding char_of scancode_to_char
ls_keys-All = (
  record {
    key = record { press = omega arith; plain = refl };
    low = omega arith;
    high = omega arith;
  },
  (
    record {
      key = record { press = omega arith; plain = refl };
      low = omega arith;
      high = omega arith;
    },
    tt,
  ),
)

typed_command_runs_example :
    (k' : System) × (rounds
        (length (strokes (0x26 ∷ 0x1f ∷ []) ++ (enter_code ∷ [])))
        waiting
        (record {
          status = replicate (length (strokes (0x26 ∷ 0x1f ∷ []) ++ (enter_code ∷ []))) 0x1d ++ [];
          codes = (strokes (0x26 ∷ 0x1f ∷ []) ++ (enter_code ∷ [])) ++ [];
        })
      ≡ (execute k' (map (char_of false) (0x26 ∷ 0x1f ∷ [])) >>= after_command >>= λ next.
          ret (next, record { status = []; codes = [] })))
    × OnScreen k'.screen
    × IsBeside waiting k'
typed_command_runs_example =
    typed_command_runs 0x1d false waiting (0x26 ∷ 0x1f ∷ []) [] [] refl waiting-IsTyping ls_keys-All
      (omega arith) (omega arith)

first_command_example :
    Ends
      (start_and_run (length (typed (0x26 ∷ 0x1f ∷ []))) (system array) (record {
        status =
            (1 ∷ [])
            ++ (0 ∷ ([] ++ (0 ∷ (replicate (length (typed (0x26 ∷ 0x1f ∷ []))) 0x1d ++ []))));
        codes = (30 ∷ []) ++ ([] ++ (typed (0x26 ∷ 0x1f ∷ []) ++ []));
      }))
      (λ r.
        (next : Next) × (r ≡ (next, record { status = []; codes = [] }))
        × StaysClear (map (char_of false) (0x26 ∷ 0x1f ∷ [])) 257 next)
unfolding char_of scancode_to_char strcmp
first_command_example =
    first_command (system array) (1 ∷ []) [] 0 0 0x1d (30 ∷ []) [] (0x26 ∷ 0x1f ∷ []) [] []
      (length-replicate {A = ℕ} vga_size 0) array-IsTable refl (refl, tt) refl refl tt refl refl
      refl refl ls_keys-All (omega arith) (omega arith) refl

typed_ls : map (char_of false) (0x26 ∷ 0x1f ∷ []) ≡ codes "ls"
unfolding char_of scancode_to_char
typed_ls = refl
