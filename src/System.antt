-- ===== src/System.antt =====
-- The whole kernel: its statics, the commands of the terminal, and the rounds of `terminal_run`.
pub mod Output
pub mod Files
pub mod Command
pub mod Loop
pub mod Printing
pub mod Safe
pub mod Start
pub mod Compose
pub mod Typing
pub mod Session
pub mod FirstCommand
pub mod Reach
pub mod Nameless
pub mod ChangeDir
pub mod Tests
use fox_os.Base.{ℕ, List, Run, ret, ◌>>=◌}
use fox_os.Fs.{Fs}
use fox_os.Keyboard.{Keyboard}
use fox_os.Screen.{Screen}
use fox_os.Screen.Printf.{Arg, vga_printf}
use fox_os.Terminal.{Line}

-- The statics of the five files. `current_dir` is the text in its array; `current_color` is the
-- static of `execute_command`.
pub record System : Type 0 where
  pub screen : Screen
  pub keyboard : Keyboard
  pub fs : Fs
  pub line : Line
  pub prompt_length : ℕ
  pub current_dir : List ℕ
  pub current_color : ℕ

-- `vga_printf`
unfoldable pub print : System → List ℕ → List Arg → Run System
print k format args = vga_printf k.screen format args >>= λ s. ret (record k { screen = s })
