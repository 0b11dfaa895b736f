-- ===== src/Loader/Order.antt =====
-- What src/uefi_bootloader.c reports: the events without the messages, and the two ends of a run.
pub mod Steps
pub mod Boot
use fox_os.Base.{
  ℕ, ◌==◌, ◌≡◌, ◌≢◌, ap, sym, ◌∙◌, append_assoc, ◌⊎◌, inl, inr, refl, Bool, true, false, List, [],
  ◌∷◌, ◌++◌, if◌then◌else◌, take, Bool-cases, arith, codes,
}
use fox_os.Loader.{
  Call, output_string, read, allocate_pages, exit_boot_services, Reply, Place, Prog, done, ask,
  look, enter, say, Event, called, entered, Machine, Outcome, returns, stays, run,
}
use fox_os.Loader.Boot.{
  size_to_pages, print, checked, check_signature, start_kernel, read_kernel, read_info, measure,
  open_boot_file, open_disk, boot_main,
}

unfoldable pub is_message : Call → Bool
is_message (output_string text) = true
is_message _ = false

-- The calls without the messages.
unfoldable pub services : List Event → List Event
services [] = []
services (called c r ∷ t) =
    let rest = services t in if is_message c then rest else called c r ∷ rest
services (entered a ∷ t) = entered a ∷ services t

unfoldable pub is_entered : List Event → Bool
is_entered [] = false
is_entered (called c r ∷ t) = is_entered t
is_entered (entered a ∷ t) = true

unfoldable pub events : Outcome → List Event
events (returns v t) = t
events (stays t) = t

-- The value returned is the status of the last call that is no message, and no kernel has been
-- entered.
pub record IsRefused (o : Outcome) : Type 0 where
  pub v : ℕ
  pub t : List Event
  pub c : Call
  pub r : Reply
  pub rest : List Event
  pub returned : o ≡ returns v t
  pub last : services t ≡ called c r ∷ rest
  pub status : r.status ≡ v
  pub no_kernel : is_entered t ≡ false

-- The kernel is entered, once the pages that start at it have been given, for the size that is
-- read, the file has been read to it, and the boot services have been left, all with the status 0.
pub record IsEntered (m : Machine) (image : ℕ) (o : Outcome) : Type 0 where
  pub kernel : ℕ
  pub file : ℕ
  pub size : ℕ
  pub later : List Event
  pub t : List Event
  pub rest : List Event
  pub pages : Reply
  pub contents : Reply
  pub left : Reply
  pub whole : events o ≡ later ++ (entered kernel ∷ t)
  pub order :
      services t
      ≡ called (exit_boot_services image 0) left
        ∷ called (read file size kernel) contents
        ∷ called (allocate_pages 1 1 (size_to_pages size)) pages
        ∷ rest
  pub given : pages.status ≡ 0
  pub at : pages.out ≡ kernel
  pub loaded : contents.status ≡ 0
  pub exited : left.status ≡ 0
  pub asked : (before : List Event) × (left ≡ m.answer before (exit_boot_services image 0))
  pub first : is_entered t ≡ false
