-- ===== src/Keyboard/Wait.antt =====
-- The loops that read the ports.
use Prim.Native.Nat.{bit_and}
use fox_os.Base.{ℕ, ◌≡◌, true, false, List, [], ◌∷◌, ◌++◌, some, arith, All, ◌==◌, length}
use fox_os.Keyboard.{
  Keyboard, keyboard_wait, keyboard_init, keyboard_init_from, keyboard_read, keyboard_get_scancode,
  handle,
}

abbrev pub IsBusy : ℕ → Type 0
IsBusy s = (bit_and s 2 == 0) ≡ false

wait_until :
    (busy : List ℕ) (s : ℕ) (rest : List ℕ)
    → All IsBusy busy
    → (bit_and s 2 == 0) ≡ true
    → keyboard_wait (busy ++ (s ∷ rest)) ≡ some rest
unfolding keyboard_wait
wait_until [] s rest h e = ground arith
wait_until (b ∷ busy) s rest h e = ground (arith, wait_until busy s rest h.1 e)

-- Once a read of the status has the busy bit clear, `keyboard_read` handles the next scan code: it
-- has read the status as often as it was busy and once more, and one scan code.
pub read-handle :
    (kb : Keyboard) (busy : List ℕ) (s : ℕ) (status : List ℕ) (c : ℕ) (codes : List ℕ)
    → All IsBusy busy
    → (bit_and s 2 == 0) ≡ true
    → keyboard_read kb (record { status = busy ++ (s ∷ status); codes = c ∷ codes })
      ≡ some ((handle kb c).0, (handle kb c).1, record { status = status; codes = codes })
unfolding keyboard_read keyboard_get_scancode
read-handle kb busy s status c codes h e = ground (arith, wait_until busy s status h e)

abbrev pub IsFull : ℕ → Type 0
IsFull s = (bit_and s 1 == 0) ≡ false

-- `keyboard_init` reads and drops one scan code for each read of the status that reports one, up to
-- the first that does not, and no other.
pub init_drains :
    (full : List ℕ) (s : ℕ) (status : List ℕ) (dropped codes : List ℕ)
    → All IsFull full
    → (bit_and s 1 == 0) ≡ true
    → length dropped ≡ length full
    → keyboard_init (record { status = full ++ (s ∷ status); codes = dropped ++ codes })
      ≡ some (record { status = status; codes = codes })
unfolding keyboard_init keyboard_init_from
init_drains [] s status [] [] h e l = ground arith
init_drains [] s status [] (c ∷ codes) h e l = ground arith
init_drains [] s status (d ∷ dropped) codes h e l = absurd (omega arith)
init_drains (f ∷ full) s status [] codes h e l = absurd (omega arith)
init_drains (f ∷ full) s status (d ∷ dropped) codes h e l =
    ground (arith, init_drains full s status dropped codes h.1 e)
