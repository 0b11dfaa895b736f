-- ===== src/System/Start.antt =====
-- The start of the kernel.
use Prim.Native.Nat.{bit_and}
use fox_os.Base.{
  ℕ, ◌≡◌, refl, ap, true, List, [], ◌∷◌, ◌++◌, some, Ends, bind-Ends, arith, length, codes, All,
  ◌==◌,
}
use fox_os.Fs.{Fs}
use fox_os.Fs.Table.{fs_init}
use fox_os.Fs.Table.Inv.{IsTable, IsTree, init-IsTree}
use fox_os.Fs.Sound.{IsSound}
use fox_os.Keyboard.{Keyboard, Ports, keyboard_init}
use fox_os.Keyboard.Wait.{IsFull, init_drains}
use fox_os.Screen.{Screen, vga_size, vga_init, vga_entry_color}
use fox_os.Fs.Lookup.Resolve.{components}
use fox_os.Fs.Listing.Complete.{live-short}
use fox_os.Screen.Cursor.{OnScreen, vga_clear_lem}
use fox_os.Screen.Putchar.{write_OnScreen}
use fox_os.System.{System}
use fox_os.System.Command.{Next, goes_on}
use fox_os.System.Loop.{puts, start, start_keyboard, terminal_init, terminal_prompt, clear_line}
use fox_os.System.Printing.{print_plain}
use fox_os.System.Safe.{IsPath, IsReady}
use fox_os.Terminal.Edit.{Shows, clear-Shows}

init-OnScreen : (s : Screen) → length s.cells ≡ vga_size → Ends (vga_init s) (λ t. OnScreen t)
unfolding vga_init
init-OnScreen s l =
    let (t, e, w) = vga_clear_lem (record s { color = vga_entry_color 7 0 }) l in (t, e, (0, 0, w))

pub root-IsPath : (dir : List ℕ) → dir ≡ codes "/" → IsPath dir 1
unfolding components
root-IsPath dir e = rw e (record { rest = []; absolute = refl; short = omega arith; names = tt })

-- The cursor is on the screen, the table and the keyboard are these, and the root is the current
-- directory.
IsUp : Keyboard → Fs → System → Type 0
IsUp kb fs k = OnScreen k.screen × (k.fs ≡ fs) × (k.current_dir ≡ codes "/") × (k.keyboard ≡ kb)

puts-IsUp :
    (kb : Keyboard) (fs : Fs) (k : System) (text : List ℕ)
    → IsUp kb fs k
    → Ends (puts k text) (IsUp kb fs)
unfolding puts IsUp
puts-IsUp kb fs k text (v, f, d, b) =
    let (s, e, w) = write_OnScreen text k.screen v in
    (record k { screen = s }, rw e refl, (w, f, d, b))

init-IsUp :
    (k : System) (t : Screen)
    → OnScreen t
    → k.current_dir ≡ codes "/"
    → IsUp k.keyboard k.fs (record k { screen = t })
unfolding IsUp
init-IsUp k t v d = (v, refl, d, refl)

fs_init-IsUp :
    (kb : Keyboard) (fs : Fs) (k : System)
    → IsUp kb fs k
    → IsUp kb (fs_init fs) (record k { fs = fs_init k.fs })
unfolding IsUp
fs_init-IsUp kb fs k (v, f, d, b) = (v, ap fs_init f, d, b)

pub IsTree-IsSound : {fs : Fs} → IsTree fs → IsSound fs
IsTree-IsSound {fs} v = record {
  cells = v.table.cells;
  not_empty = v.not_empty;
  fits = v.fits;
  names = live-short fs v;
}

-- The kernel waits for the first key: nothing but the root is in the table, and no key has been
-- handled.
pub record IsStarted (kb : Keyboard) (k : System) : Type 0 where
  pub ready : IsReady k 1
  pub line : Shows k.line [] []
  pub tree : IsTree k.fs
  pub only_root : k.fs.file_count ≡ 1
  pub prompt : k.prompt_length ≡ 7
  pub keyboard : k.keyboard ≡ kb

abbrev Starts : Keyboard → Ports → Next × Ports → Type 0
Starts kb ports r = (k : System) × (r ≡ (goes_on k, ports)) × IsStarted kb k

terminal_init-Starts :
    (kb : Keyboard) (fs : Fs) (k : System) (ports rest : Ports)
    → IsUp kb fs k
    → IsTable fs.files
    → keyboard_init ports ≡ some rest
    → Ends (terminal_init k ports) (Starts kb rest)
unfolding terminal_init IsUp
terminal_init-Starts kb fs k ports rest (v, f, d, b) table h =
    let k0 = record (clear_line (record k { fs = fs_init k.fs })) { prompt_length = 7 } in
    let (k', e, (s, g, w)) = print_plain k0 terminal_prompt v refl in
    let (tree, count) = init-IsTree fs table in
    (
      (goes_on k', rest),
      rw (h, e) refl,
      (
        k',
        refl,
        rw g (record {
          ready = record {
            on_screen = w;
            sound = IsTree-IsSound (rw f tree);
            directory = root-IsPath k.current_dir d;
          };
          line = clear-Shows k.line;
          tree = rw f tree;
          only_root = rw f count;
          prompt = refl;
          keyboard = b;
        }),
      ),
    )

start_keyboard-Starts :
    (kb : Keyboard) (fs : Fs) (k : System) (ports middle rest : Ports)
    → IsUp kb fs k
    → IsTable fs.files
    → keyboard_init ports ≡ some middle
    → keyboard_init middle ≡ some rest
    → Ends (start_keyboard k ports) (Starts kb rest)
unfolding start_keyboard
start_keyboard-Starts kb fs k ports middle rest v table h g = rw h (
    bind-Ends (puts-IsUp kb fs k (codes "OK\n") v) (λ k1 v1.
      bind-Ends (puts-IsUp kb fs k1 (codes "\nWelcome to FoxOS!\n") v1) (λ k2 v2.
        bind-Ends (puts-IsUp kb fs k2 (codes "Type 'help' for list of commands.\n\n") v2)
          (λ k3 v3. terminal_init-Starts kb fs k3 middle rest v3 table g))))

-- `_start` comes to its endless loop, from any contents of video memory and of the array of files:
-- the screen is in order, the line is empty, only the root is in the table of files, and the root is
-- the current directory; no key has been handled. Each of its two calls of `keyboard_init` drops as many scan codes as the
-- status has reported before a read that reports none.
pub start_ends :
    (k : System) (full full' : List ℕ) (s s' : ℕ) (status dropped dropped' codes' : List ℕ)
    → length k.screen.cells ≡ vga_size
    → IsTable k.fs.files
    → k.current_dir ≡ codes "/"
    → All IsFull full
    → (bit_and s 1 == 0) ≡ true
    → length dropped ≡ length full
    → All IsFull full'
    → (bit_and s' 1 == 0) ≡ true
    → length dropped' ≡ length full'
    → Ends
        (start k (record {
          status = full ++ (s ∷ (full' ++ (s' ∷ status)));
          codes = dropped ++ (dropped' ++ codes');
        }))
        (λ r.
          (k' : System) × (r ≡ (goes_on k', record { status = status; codes = codes' }))
          × IsStarted k.keyboard k')
unfolding start
start_ends k full full' s s' status dropped dropped' codes' cells table dir f e d f' e' d' =
    let fs1 = fs_init k.fs in
    bind-Ends (init-OnScreen k.screen cells) (λ t v0.
      bind-Ends
        (puts-IsUp k.keyboard k.fs (record k { screen = t }) (codes "FoxOS starting... ")
          (init-IsUp k t v0 dir))
        (λ k1 v1. bind-Ends (puts-IsUp k.keyboard k.fs k1 (codes "OK\n") v1) (λ k2 v2.
          bind-Ends (puts-IsUp k.keyboard k.fs k2 (codes "Initializing filesystem... ") v2)
            (λ k3 v3.
              bind-Ends
                (puts-IsUp k.keyboard fs1 (record k3 { fs = fs_init k3.fs }) (codes "OK\n")
                  (fs_init-IsUp k.keyboard k.fs k3 v3))
                (λ k4 v4.
                  bind-Ends (puts-IsUp k.keyboard fs1 k4 (codes "Initializing keyboard... ") v4)
                    (λ k5 v5.
                      start_keyboard-Starts k.keyboard fs1 k5 _ _ _ v5
                        (init-IsTree k.fs table).0.table
                        (init_drains full s (full' ++ (s' ∷ status)) dropped (dropped' ++ codes') f
                          e d)
                        (init_drains full' s' status dropped' codes' f' e' d')))))))
