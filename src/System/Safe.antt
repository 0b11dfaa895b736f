-- ===== src/System/Safe.antt =====
-- The commands end without a fault.
pub mod Paths
pub mod Commands
pub mod Directories
pub mod Execute
pub mod Enter
use fox_os.Base.{ℕ, ◌*◌, ◌<◌, ◌≤◌, ◌≡◌, List, ◌∷◌, All, length}
use fox_os.Fs.Lookup.{slash}
use fox_os.Fs.Lookup.Resolve.{components, IsShort}
use fox_os.Fs.Sound.{IsSound}
use fox_os.Screen.Cursor.{OnScreen}
use fox_os.System.{System}

-- An absolute path of at most `n` bytes, whose components are names.
pub record IsPath (path : List ℕ) (n : ℕ) : Type 0 where
  pub rest : List ℕ
  pub absolute : path ≡ slash ∷ rest
  pub short : length path ≤ n
  pub names : All IsShort (components path)

-- The cursor is on the screen, the table of files is sound, and the current directory is a path of
-- at most `n` bytes.
pub record IsReady (k : System) (n : ℕ) : Type 0 where
  pub on_screen : OnScreen k.screen
  pub sound : IsSound k.fs
  pub directory : IsPath k.current_dir n
