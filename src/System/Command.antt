-- ===== src/System/Command.antt =====
-- `execute_command` of src/terminal.c.
use fox_os.Base.{ℕ, Bool, List, [], ◌∷◌, Run, ret, ◌>>=◌, ◌==◌, if◌then◌else◌, store, codes}
use fox_os.Text.{strcmp, strncmp, is_zero}
use fox_os.System.{System, print}
use fox_os.System.Output.{
  help, clear_screen, test_formatting, test_colors, version, next_color, pwd, unknown,
}
use fox_os.System.Files.{ls, cd, mkdir, touch, rm}

-- The text that an object holds: its bytes before the first NUL.
abbrev pub text_in : List ℕ → List ℕ
text_in [] = []
text_in (c ∷ object) = let rest = text_in object in if c == 0 then [] else c ∷ rest

-- What comes after a piece of the kernel: the next state; or the machine is switched off, by the
-- assembly of `exit`, which does not return; or the reads given of the ports are used up.
pub data Next : Type 0 where
  goes_on : System → Next
  off : System → Next
  waits : Next

-- `strcmp(input_buffer, name) == 0`
abbrev pub is_command : List ℕ → List ℕ → Bool
is_command cmd name = is_zero (strcmp cmd name)

-- `strncmp(input_buffer, name, n) == 0`
abbrev pub begins : List ℕ → List ℕ → ℕ → Bool
begins cmd name n = is_zero (strncmp cmd name n)

abbrev pub on : Run System → Run Next
on r = r >>= λ k. ret (goes_on k)

-- The commands that take arguments, and any other.
unfoldable pub execute_file : System → List ℕ → Run System
execute_file k cmd =
    if begins cmd (codes "ls") 2
    then ls k cmd
    else if begins cmd (codes "cd") 2
    then cd k cmd
    else if begins cmd (codes "mkdir") 5
    then mkdir k cmd
    else if begins cmd (codes "touch") 5
    then touch k cmd
    else if begins cmd (codes "rm") 2
    then rm k cmd
    else unknown k cmd

unfoldable pub execute : System → List ℕ → Run Next
execute k cmd =
    if is_command cmd (codes "help")
    then on (help k)
    else if is_command cmd (codes "clear")
    then on (clear_screen k)
    else if is_command cmd (codes "exit")
    then (print k (codes "Exiting FoxOS...\n") [] >>= λ k'. ret (off k'))
    else if is_command cmd (codes "test-formatting")
    then on (test_formatting k)
    else if is_command cmd (codes "test-colors")
    then on (test_colors k)
    else if is_command cmd (codes "version")
    then on (version k)
    else if is_command cmd (codes "color")
    then ret (goes_on (next_color k))
    else if is_command cmd (codes "pwd")
    then on (pwd k)
    else on (execute_file k cmd)

-- `input_buffer[buffer_pos] = '\0';` goes before the commands.
unfoldable pub execute_command : System → Run Next
execute_command k =
    if k.line.buffer_pos == 0
    then ret (goes_on k)
    else (store k.line.input_buffer k.line.buffer_pos 0 >>= λ buffer.
        execute (record k { line = record k.line { input_buffer = buffer } }) (text_in buffer))
