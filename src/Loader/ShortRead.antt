-- ===== src/Loader/ShortRead.antt =====
-- A file that is read in part by uefi_loader.c.
use fox_os.Base.{ℕ, ◌==◌, ◌≡◌, refl, false, List, [], ◌∷◌, Option, none, some, codes}
use fox_os.Loader.{
  Call, output_string, read, Reply, Event, called, Machine, returns, Prog, ask, look, Place, run,
}
use fox_os.Loader.KernelFile.{
  loaded, load, find_size, open_kernel, open_root, find_file_system, loader_main,
}

-- The text that has been printed last.
unfoldable pub last_message : List Event → Option (List ℕ)
last_message [] = none
last_message (called (output_string text) r ∷ t) = some text
last_message (_ ∷ t) = last_message t

-- The loader returns 0, and has printed an error last.
abbrev ReturnsZero : Machine → Prog → Type 0
ReturnsZero m p =
    (t : List Event)
    → (t' : List Event) × (run m p t ≡ returns 0 t')
      × (last_message t' ≡ some (codes "Error reading kernel file\r\n"))

loaded-short :
    (m : Machine) (root file size buffer : ℕ) (r : Reply)
    → r.status ≡ 0
    → (r.out == size) ≡ false
    → ReturnsZero m (loaded root file size buffer r)
unfolding loaded run last_message
loaded-short m root file size buffer r e f t = rw (e, f) (_, refl, refl)

module _ (m : Machine) (fine : (t : List Event) (c : Call) → (m.answer t c).status ≡ 0)
    (short : (t : List Event) (f n b : ℕ) → ((m.answer t (read f n b)).out == n) ≡ false) where
  ask-ReturnsZero :
      (c : Call) (next : Reply → Prog)
      → ((r : Reply) → r.status ≡ 0 → ReturnsZero m (next r))
      → ReturnsZero m (ask c next)
  unfolding run
  ask-ReturnsZero c next h t = h (m.answer t c) (fine t c) (called c (m.answer t c) ∷ t)

  read-ReturnsZero :
      (f n b : ℕ) (next : Reply → Prog)
      → ((r : Reply) → r.status ≡ 0 → (r.out == n) ≡ false → ReturnsZero m (next r))
      → ReturnsZero m (ask (read f n b) next)
  unfolding run
  read-ReturnsZero f n b next h t = h _ (fine t (read f n b)) (short t f n b) _

  look-ReturnsZero :
      (p : Place) (next : ℕ → Prog)
      → ((v : ℕ) → ReturnsZero m (next v))
      → ReturnsZero m (look p next)
  unfolding run
  look-ReturnsZero p next h t = h (m.value t p) t

  find_size-short : (root file : ℕ) → ReturnsZero m (find_size root file)
  unfolding find_size load
  find_size-short root file = ask-ReturnsZero _ _ (λ r z. ask-ReturnsZero _ _ (λ size z'.
      ask-ReturnsZero _ _ (λ r' z''. ask-ReturnsZero _ _ (λ buffer e. rw e (
        read-ReturnsZero file size.out buffer.out _
          (λ r''. loaded-short m root file size.out buffer.out r''))))))

  find_file_system-short : (device : ℕ) → ReturnsZero m (find_file_system device)
  unfolding find_file_system open_root open_kernel
  find_file_system-short device = ask-ReturnsZero _ _ (λ fs e. rw e (
      ask-ReturnsZero _ _ (λ root e'.
        rw e' (ask-ReturnsZero _ _ (λ file e''. rw e'' (find_size-short root.out file.out))))))

-- Where every call has the status 0, but `Read` never reads the whole size, `UefiMain` of
-- uefi_loader.c prints the error last, and returns 0, which stands for success.
pub short_read_succeeds :
    (m : Machine) (image : ℕ)
    → ((t : List Event) (c : Call) → (m.answer t c).status ≡ 0)
    → ((t : List Event) (f n b : ℕ) → ((m.answer t (read f n b)).out == n) ≡ false)
    → (t : List Event) × (run m (loader_main image) [] ≡ returns 0 t)
      × (last_message t ≡ some (codes "Error reading kernel file\r\n"))
unfolding loader_main
short_read_succeeds m image fine short =
    ask-ReturnsZero m fine short _ _
      (λ r z. ask-ReturnsZero m fine short _ _ (λ loaded_image e. rw e (
        ask-ReturnsZero m fine short _ _ (λ r' z'.
          look-ReturnsZero m fine short _ _
            (λ device. find_file_system-short m fine short device)))))
      []
