-- ===== src/System/Loop.antt =====
-- `terminal_init` and `terminal_run` of src/terminal.c, and `_start` of src/kernel.c.
use fox_os.Base.{
  ℕ, zero, suc, List, [], Option, none, some, Run, ret, ◌>>=◌, ◌==◌, if◌then◌else◌, codes,
}
use fox_os.Keyboard.{Ports, keyboard_init, keyboard_read}
use fox_os.Fs.Table.{fs_init}
use fox_os.Screen.{vga_init, vga_putchar, vga_write}
use fox_os.System.{System, print}
use fox_os.System.Command.{Next, goes_on, off, waits, execute_command}
use fox_os.Terminal.{clear_buffer, edit_key}

abbrev pub terminal_prompt : List ℕ
terminal_prompt = codes "FoxOS> "

abbrev pub clear_line : System → System
clear_line k = record k { line = clear_buffer k.line }

-- Once the command has run.
abbrev pub after_command : Next → Run Next
after_command (goes_on k) = print (clear_line k) terminal_prompt [] >>= λ k'. ret (goes_on k')
after_command (off k) = ret (off k)
after_command waits = ret waits

-- The line feed.
unfoldable pub enter_key : System → Run Next
enter_key k =
    vga_putchar k.screen b'\n' >>= λ s. execute_command (record k { screen = s }) >>= after_command

-- `terminal_run` once a character has been read.
unfoldable pub run_char : System → ℕ → Run Next
run_char k c =
    if c == 0
    then ret (goes_on k)
    else if c == b'\n'
    then enter_key k
    else edit_key k.screen k.prompt_length k.line c >>= λ (s, l).
        ret (goes_on (record k { screen = s; line = l }))

-- With the reads of the ports that are left.
unfoldable pub terminal_run : System → Ports → Run (Next × Ports)
terminal_run k ports = elim (keyboard_read k.keyboard ports) [
  | none ↦ ret (waits, ports)
  | some (c, kb, ports') ↦ run_char (record k { keyboard = kb }) c >>= λ n. ret (n, ports')
]

-- With what `keyboard_init` leaves of the reads, if it comes to its end.
abbrev pub once_drained : Option Ports → Ports → (Ports → Run (Next × Ports)) → Run (Next × Ports)
once_drained none ports act = ret (waits, ports)
once_drained (some ports') ports act = act ports'

unfoldable pub terminal_init : System → Ports → Run (Next × Ports)
terminal_init k ports = once_drained (keyboard_init ports) ports (λ ports'.
    print (record (clear_line (record k { fs = fs_init k.fs })) { prompt_length = 7 })
      terminal_prompt []
    >>= λ k'. ret (goes_on k', ports'))

-- `vga_puts`
unfoldable pub puts : System → List ℕ → Run System
puts k text = vga_write k.screen text >>= λ s. ret (record k { screen = s })

-- `_start` from the initialisation of the keyboard on.
unfoldable pub start_keyboard : System → Ports → Run (Next × Ports)
start_keyboard k ports = once_drained (keyboard_init ports) ports (λ ports'. do
  k1 ← puts k (codes "OK\n")
  k2 ← puts k1 (codes "\nWelcome to FoxOS!\n")
  k3 ← puts k2 (codes "Type 'help' for list of commands.\n\n")
  terminal_init k3 ports')

-- `_start` up to the endless loop.
unfoldable pub start : System → Ports → Run (Next × Ports)
start k ports = do
  s ← vga_init k.screen
  k1 ← puts (record k { screen = s }) (codes "FoxOS starting... ")
  k2 ← puts k1 (codes "OK\n")
  k3 ← puts k2 (codes "Initializing filesystem... ")
  k4 ← puts (record k3 { fs = fs_init k3.fs }) (codes "OK\n")
  k5 ← puts k4 (codes "Initializing keyboard... ")
  start_keyboard k5 ports

-- The first rounds of `while (1) terminal_run();`
unfoldable pub rounds : ℕ → System → Ports → Run (Next × Ports)
rounds zero k ports = ret (goes_on k, ports)
rounds (suc n) k ports = terminal_run k ports >>= λ (next, ports'). elim next [
  | goes_on k' ↦ rounds n k' ports'
  | off k' ↦ ret (off k', ports')
  | waits ↦ ret (waits, ports')
]

-- The loop, if it is reached.
abbrev pub run_on : ℕ → Next × Ports → Run (Next × Ports)
run_on n (goes_on k, ports) = rounds n k ports
run_on n (off k, ports) = ret (off k, ports)
run_on n (waits, ports) = ret (waits, ports)

-- `_start`, with the first rounds of its loop.
unfoldable pub start_and_run : ℕ → System → Ports → Run (Next × Ports)
start_and_run n k ports = start k ports >>= run_on n
