-- ===== src/System/Reach/Rounds.antt =====
-- The rounds of `terminal_run` as steps, and what they keep.
use fox_os.Base.{◌≡◌, ret}
use fox_os.Fs.Sound.{IsSound}
use fox_os.Keyboard.{Keyboard, Ports}
use fox_os.Screen.{Screen}
use fox_os.System.{System}
use fox_os.System.Command.{goes_on}
use fox_os.System.Loop.{terminal_run}
use fox_os.System.Safe.{IsPath}
use fox_os.Terminal.Keys.{Editor, Holds}

-- The states that rounds of `terminal_run` lead to, whatever each of them reads from the ports.
pub data Reaches (k : System) : System → Type 0 where
  at_once : Reaches k k
  round :
      {k' k'' : System} (p p' : Ports)
      → Reaches k k'
      → terminal_run k' p ≡ ret (goes_on k'', p')
      → Reaches k k''

-- The table is sound, the current directory is an absolute path of at most 511 bytes whose names
-- are short, and the line holds the text of an editor with its cursor.
pub record IsOrderly (k : System) : Type 0 where
  pub sound : IsSound k.fs
  pub directory : IsPath k.current_dir 511
  pub edited : Editor
  pub line : Holds k.line edited
