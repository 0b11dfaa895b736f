-- ===== src/Loader/Tests.antt =====
-- Machines, and the loaders on them.
use fox_os.Base.{ℕ, ◌+◌, zero, suc, ◌==◌, ◌≡◌, ◌⊎◌, refl, true, false, List, [], some, codes, arith}
use fox_os.Loader.{
  Call, allocate_pages, get_info, read, allocate_pool, exit_boot_services, get_position, Reply,
  Event, Machine, returns, run,
}
use fox_os.Loader.Boot.{boot_main}
use fox_os.Loader.Fox.{fox_main}
use fox_os.Loader.KernelFile.{loader_main}
use fox_os.Loader.Files.{open_files, loader_closes}
use fox_os.Loader.Layout.{struct}
use fox_os.Loader.Layout.Boot.{boot_guid, boot_file, boot_file_system, boot_image}
use fox_os.Loader.Layout.Files.{IsShared, files_agree}
use fox_os.Loader.Layout.Fox.{fox_guid, fox_file, fox_file_system, fox_output, fox_table}
use fox_os.Loader.Layout.Header.{
  guid, file_protocol, simple_file_system, loaded_image, system_table, text_output,
}
use fox_os.Loader.Layout.Slots.{
  through, loader_prints, fox_prints, test_prints, boot_prints, boot_handle, boot_allocate,
  loader_allocate, loader_handle, fox_skipped, prints_agree, boot_misplaces, loader_misplaces,
}
use fox_os.Loader.ShortRead.{last_message, short_read_succeeds}
use fox_os.Loader.Order.{is_entered, events, IsRefused, IsEntered}
use fox_os.Loader.Order.Boot.{boot_reports, boot_never_enters}
use fox_os.Loader.Unread.{is_checked, fox_enters_unread}

abbrev reply : ℕ → ℕ → Reply
reply status out = record { status = status; out = out }

-- Every handle and address is 7, and every size 4096; a read stops one byte before the size.
abbrev reads_short : Call → Reply
reads_short (read f (suc n) b) = reply 0 n
reads_short (read f zero b) = reply 0 1
reads_short (get_position f) = reply 0 4096
reads_short _ = reply 0 7

abbrev short_machine : Machine
short_machine = record { answer = λ t c. reads_short c; value = λ t p. 7; comes_back = λ t. false }

short_fine : (t : List Event) (c : Call) → (short_machine.answer t c).status ≡ 0
short_fine t c = status_0 c
  where
    status_0 : (c : Call) → (reads_short c).status ≡ 0
    status_0 (read f zero b) = refl
    status_0 (read f (suc n) b) = refl
    status_0 (get_position f) = refl
    status_0 _ = refl

short_short :
    (t : List Event) (f n b : ℕ) → ((short_machine.answer t (read f n b)).out == n) ≡ false
short_short t f zero b = refl
short_short t f (suc n) b = ground arith

short_read_succeeds_example :
    (t : List Event) × (run short_machine (loader_main 1) [] ≡ returns 0 t)
    × (last_message t ≡ some (codes "Error reading kernel file\r\n"))
short_read_succeeds_example = short_read_succeeds short_machine 1 short_fine short_short

-- The allocation fails: EFI_OUT_OF_RESOURCES.
abbrev full : Call → Reply
full (allocate_pool type size) = reply 0x8000000000000009 0
full _ = reply 0 7

abbrev full_machine : Machine
full_machine = record { answer = λ t c. full c; value = λ t p. 7; comes_back = λ t. false }

loader_closes_example :
    (v : ℕ) × (t : List Event) × (run full_machine (loader_main 1) [] ≡ returns v t)
    × (open_files t ≡ some [])
loader_closes_example = loader_closes full_machine 1

-- The information needs 100 bytes; ExitBootServices answers with the status given.
abbrev answers : ℕ → Call → Reply
answers status (get_info f kind zero b) = reply 0x8000000000000005 100
answers status (get_info f kind (suc n) b) = reply 0 100
answers status (allocate_pages way type pages) = reply 0 0x100000
answers status (exit_boot_services image key) = reply status 0
answers status _ = reply 0 7

abbrev machine : ℕ → Machine
machine status = record {
  answer = λ t c. answers status c;
  value = λ t p. 5000;
  comes_back = λ t. false;
}

boot_reports_example :
    IsRefused (run (machine 0) (boot_main 1) [])
    ⊎ IsEntered (machine 0) 1 (run (machine 0) (boot_main 1) [])
boot_reports_example = boot_reports (machine 0) 1

-- 0x8000000000000002 is EFI_INVALID_PARAMETER.
boot_never_enters_example : IsRefused (run (machine 0x8000000000000002) (boot_main 1) [])
boot_never_enters_example =
    boot_never_enters (machine 0x8000000000000002) 1 (λ t e. absurd (omega (arith, e)))

-- The calls on the file fail, with EFI_DEVICE_ERROR.
abbrev broken : Call → Reply
broken (get_info f kind size b) = reply 0x8000000000000007 0
broken (read f size b) = reply 0x8000000000000007 0
broken (allocate_pool type size) = reply 0x8000000000000009 0
broken _ = reply 0 7

abbrev broken_machine : Machine
broken_machine = record { answer = λ t c. broken c; value = λ t p. 0; comes_back = λ t. false }

fox_enters_unread_example : is_entered (events (run broken_machine fox_main [])) ≡ true
unfolding is_checked
fox_enters_unread_example = fox_enters_unread broken_machine (λ t c e. checked_0 c e)
  where
    checked_0 : (c : Call) → is_checked c ≡ true → (broken c).status ≡ 0
    checked_0 (get_info f kind size b) e = ground arith
    checked_0 (read f size b) e = ground arith
    checked_0 (allocate_pool type size) e = ground arith
    checked_0 _ e = refl

-- A memory in which the tables lie behind one another.
abbrev words : ℕ → ℕ
words address = address + 1000

prints_agree_example :
    (loader_prints words 5000 ≡ some (words (words (5000 + 64) + 8)))
    × (fox_prints words 5000 ≡ loader_prints words 5000)
    × (test_prints words 5000 ≡ fox_prints words 5000)
prints_agree_example = prints_agree words 5000

boot_misplaces_example :
    (boot_handle words 5000
      ≡ through words system_table (codes "ConOut") text_output (codes "Reset") 5000)
    × (boot_allocate words 5000 ≡ fox_prints words 5000)
    × (boot_prints words 5000
        ≡ through words fox_table (codes "ConsoleOutHandle") fox_output (codes "OutputString") 5000)
boot_misplaces_example = boot_misplaces words 5000

loader_misplaces_example :
    (loader_allocate words 5000 ≡ fox_skipped words 0 5000)
    × (loader_handle words 5000 ≡ fox_skipped words 2 5000)
loader_misplaces_example = loader_misplaces words 5000

files_agree_example :
    IsShared words 6000 simple_file_system fox_file_system (codes "OpenVolume") (codes "OpenVolume")
    × IsShared words 6000 simple_file_system boot_file_system
        (codes "OpenVolume")
        (codes "OpenVolume")
    × ((name : List ℕ)
        → (name ≡ codes "Open") ⊎ ((name ≡ codes "Close") ⊎ (name ≡ codes "Read"))
        → IsShared words 5000 file_protocol fox_file name name
          × IsShared words 5000 file_protocol boot_file name name)
    × IsShared words 7000 loaded_image boot_image (codes "ParentHandle") (codes "ParentHandle")
    × (struct (codes "Guid") guid ≡ struct (codes "Guid") fox_guid)
    × (struct (codes "Guid") guid ≡ struct (codes "Guid") boot_guid)
    × IsShared words 5000 file_protocol fox_file (codes "SetPosition") (codes "GetInfo")
    × IsShared words 5000 file_protocol boot_file (codes "SetPosition") (codes "GetInfo")
files_agree_example = files_agree words 5000 6000 7000
