-- ===== src/Loader/Order/Boot.antt =====
-- The parts of `UefiMain` of src/uefi_bootloader.c, from the last one on.
use fox_os.Base.{ℕ, ◌==◌, ◌≡◌, ◌≢◌, ap, sym, ◌∙◌, ◌⊎◌, inl, inr, refl, List, [], ◌∷◌, Bool-cases}
use fox_os.Loader.{read, allocate_pages, exit_boot_services, Reply, Event, called, Machine, run}
use fox_os.Loader.Boot.{
  size_to_pages, check_signature, start_kernel, read_kernel, read_info, measure, open_boot_file,
  open_disk, boot_main,
}
use fox_os.Loader.Order.{is_message, services, is_entered, IsRefused, IsEntered}
use fox_os.Loader.Order.Steps.{
  Reports, ask-Reports, print-Reports, look-Reports, done-Reports, checked-Reports, enter_extends,
}

module _ (m : Machine) (image : ℕ) where
  start_kernel-Reports :
      (file size kernel : ℕ) (pages contents : Reply) (s : List Event)
      → pages.status ≡ 0
      → pages.out ≡ kernel
      → contents.status ≡ 0
      → Reports m image
          (called (read file size kernel) contents
            ∷ called (allocate_pages 1 1 (size_to_pages size)) pages
            ∷ s)
          (start_kernel image kernel)
  unfolding start_kernel is_message
  start_kernel-Reports file size kernel pages contents s z1 a z2 = print-Reports m image _ _ _ (
      ask-Reports m image _ _ _ refl (λ r q. checked-Reports m image _ r _ _ _ (λ z3.
        print-Reports m image _ _ _ (λ t e f.
          let (later, w) = enter_extends m kernel (check_signature kernel) t in
          inr (record {
            kernel = kernel;
            file = file;
            size = size;
            later = later;
            t = t;
            rest = s;
            pages = pages;
            contents = contents;
            left = r;
            whole = w;
            order = e;
            given = z1;
            at = a;
            loaded = z2;
            exited = z3;
            asked = q;
            first = f;
          })))))

  read_kernel-Reports :
      (file size : ℕ) (s : List Event) → Reports m image s (read_kernel image file size)
  unfolding read_kernel is_message
  read_kernel-Reports file size s = ask-Reports m image _ _ s refl (λ r q.
      checked-Reports m image _ r _ _ s (λ z. print-Reports m image _ _ _ (
        ask-Reports m image _ _ _ refl (λ r' q'. checked-Reports m image _ r' _ _ _ (λ z'.
          print-Reports m image _ _ _ (start_kernel-Reports file size r.out r r' s z refl z'))))))

  read_info-Reports :
      (file info_size : ℕ) (s : List Event) → Reports m image s (read_info image file info_size)
  unfolding read_info is_message
  read_info-Reports file info_size s = ask-Reports m image _ _ s refl (λ r q.
      checked-Reports m image _ r _ _ s (λ z. ask-Reports m image _ _ _ refl (λ r' q'.
        checked-Reports m image _ r' _ _ _ (λ z'.
          look-Reports m image _ _ _
            (λ size. print-Reports m image _ _ _ (read_kernel-Reports file size _))))))

  measure-Reports : (file : ℕ) (s : List Event) → Reports m image s (measure image file)
  unfolding measure is_message
  measure-Reports file s = ask-Reports m image _ _ s refl (λ r q.
      elim (Bool-cases (r.status == 0x8000000000000005)) [
        | inl e ↦ rw e (read_info-Reports file r.out _)
        | inr e ↦ rw e (print-Reports m image _ _ _ (done-Reports m image _ r s))
      ])

  open_boot_file-Reports :
      (root : ℕ) (s : List Event) → Reports m image s (open_boot_file image root)
  unfolding open_boot_file is_message
  open_boot_file-Reports root s = ask-Reports m image _ _ s refl (λ r q.
      checked-Reports m image _ r _ _ s
        (λ z. print-Reports m image _ _ _ (measure-Reports r.out _)))

  open_disk-Reports : (device : ℕ) (s : List Event) → Reports m image s (open_disk image device)
  unfolding open_disk is_message
  open_disk-Reports device s = ask-Reports m image _ _ s refl (λ r q.
      checked-Reports m image _ r _ _ s (λ z. ask-Reports m image _ _ _ refl (λ r' q'.
        checked-Reports m image _ r' _ _ _
          (λ z'. print-Reports m image _ _ _ (open_boot_file-Reports r'.out _)))))

-- `UefiMain` of src/uefi_bootloader.c, whatever the firmware answers, does one of two things. It
-- returns the status of its last call but for messages, and has entered no kernel. Or it enters the
-- kernel at the address that `AllocatePages` gave for the pages of the size with which `Read` was
-- called next, and right after `ExitBootServices`; the three have answered with the status 0, and no
-- kernel has been entered before.
pub boot_reports :
    (m : Machine) (image : ℕ)
    → IsRefused (run m (boot_main image) []) ⊎ IsEntered m image (run m (boot_main image) [])
unfolding boot_main is_message services is_entered
boot_reports m image =
    print-Reports m image _ _ []
      (ask-Reports m image _ _ [] refl (λ r q.
        checked-Reports m image _ r _ _ []
          (λ z. look-Reports m image _ _ _ (λ device. open_disk-Reports m image device _))))
      [] refl refl

-- Where the firmware refuses `ExitBootServices` for the key 0, as it does unless 0 is the key of
-- its current memory map, no kernel is ever entered: `UefiMain` of src/uefi_bootloader.c returns the
-- status of its last call but for messages.
pub boot_never_enters :
    (m : Machine) (image : ℕ)
    → ((t : List Event) → (m.answer t (exit_boot_services image 0)).status ≢ 0)
    → IsRefused (run m (boot_main image) [])
boot_never_enters m image h = elim (boot_reports m image) [
  | inl v ↦ v
  | inr v ↦ absurd (let (t, e) = v.asked in h t (ap (λ r. r.status) (sym e) ∙ v.exited))
]
