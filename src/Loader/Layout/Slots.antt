-- ===== src/Loader/Layout/Slots.antt =====
-- Where the loaders find the functions that they call, in the same tables.
use fox_os.Base.{ℕ, ◌+◌, ◌≡◌, refl, List, Option, none, some, codes}
use fox_os.Loader.Layout.{Struct, member, element}
use fox_os.Loader.Layout.Header.{text_output, system_table, boot_services, test_output, test_table}
use fox_os.Loader.Layout.Fox.{fox_output, fox_table, fox_services}
use fox_os.Loader.Layout.Boot.{boot_output, boot_table, boot_calls}

-- `table->first->second`.
unfoldable pub through : (ℕ → ℕ) → Struct → List ℕ → Struct → List ℕ → ℕ → Option ℕ
through memory s first s' second table = elim (member memory s first table) [
  | none ↦ none
  | some base ↦ member memory s' second base
]

-- `SystemTable->ConOut->OutputString` in the four programs.
unfoldable pub loader_prints : (ℕ → ℕ) → ℕ → Option ℕ
loader_prints memory table =
    through memory system_table (codes "ConOut") text_output (codes "OutputString") table

unfoldable pub fox_prints : (ℕ → ℕ) → ℕ → Option ℕ
fox_prints memory table =
    through memory fox_table (codes "ConOut") fox_output (codes "OutputString") table

unfoldable pub boot_prints : (ℕ → ℕ) → ℕ → Option ℕ
boot_prints memory table =
    through memory boot_table (codes "ConOut") boot_output (codes "OutputString") table

unfoldable pub test_prints : (ℕ → ℕ) → ℕ → Option ℕ
test_prints memory table =
    through memory test_table (codes "ConOut") test_output (codes "OutputString") table

-- `BS->HandleProtocol` and `BS->AllocatePool` of uefi_loader.c, where `BS` is
-- `SystemTable->BootServices`.
unfoldable pub loader_handle : (ℕ → ℕ) → ℕ → Option ℕ
loader_handle memory table =
    through memory system_table (codes "BootServices") boot_services (codes "HandleProtocol") table

unfoldable pub loader_allocate : (ℕ → ℕ) → ℕ → Option ℕ
loader_allocate memory table =
    through memory system_table (codes "BootServices") boot_services (codes "AllocatePool") table

-- `SystemTable->BootServices->AllocatePool` of foxos_uefi.c.
unfoldable pub fox_allocate : (ℕ → ℕ) → ℕ → Option ℕ
fox_allocate memory table =
    through memory fox_table (codes "BootServices") fox_services (codes "AllocatePool") table

-- The words that foxos_uefi.c skips: RaiseTPL, RestoreTPL, AllocatePages, FreePages and
-- GetMemoryMap, as its comment names them.
unfoldable pub fox_skipped : (ℕ → ℕ) → ℕ → ℕ → Option ℕ
fox_skipped memory i table = elim (member memory fox_table (codes "BootServices") table) [
  | none ↦ none
  | some services ↦ element memory fox_services (codes "_pad_before_allocate_pool") i services
]

-- `BS->HandleProtocol` and `BS->AllocatePages` of src/uefi_bootloader.c.
unfoldable pub boot_handle : (ℕ → ℕ) → ℕ → Option ℕ
boot_handle memory table =
    through memory boot_table (codes "BootServices") boot_calls (codes "HandleProtocol") table

unfoldable pub boot_allocate : (ℕ → ℕ) → ℕ → Option ℕ
boot_allocate memory table =
    through memory boot_table (codes "BootServices") boot_calls (codes "AllocatePages") table

-- Wherever the tables lie in memory, uefi_loader.c, foxos_uefi.c and src/uefitest.c print through
-- the same function, the second word of what the word 64 bytes into the system table points at.
pub prints_agree :
    (memory : ℕ → ℕ) (table : ℕ)
    → (loader_prints memory table ≡ some (memory (memory (table + 64) + 8)))
      × (fox_prints memory table ≡ loader_prints memory table)
      × (test_prints memory table ≡ fox_prints memory table)
unfolding loader_prints fox_prints test_prints through
prints_agree memory table = (refl, refl, refl)

-- Wherever the tables lie in memory, what src/uefi_bootloader.c takes for HandleProtocol is the Reset
-- of the console that uefi_loader.c and foxos_uefi.c print on, what it takes for AllocatePages is
-- that console's OutputString, and it prints through the second word behind `ConsoleOutHandle`.
pub boot_misplaces :
    (memory : ℕ → ℕ) (table : ℕ)
    → (boot_handle memory table
        ≡ through memory system_table (codes "ConOut") text_output (codes "Reset") table)
      × (boot_allocate memory table ≡ fox_prints memory table)
      × (boot_prints memory table
          ≡ through memory fox_table
              (codes "ConsoleOutHandle")
              fox_output
              (codes "OutputString")
              table)
unfolding boot_handle boot_allocate boot_prints fox_prints through
boot_misplaces memory table = (refl, refl, refl)

-- Wherever the tables lie in memory, what uefi_loader.c takes for AllocatePool and HandleProtocol are the
-- first and the third of the functions that foxos_uefi.c skips in front of its AllocatePool.
pub loader_misplaces :
    (memory : ℕ → ℕ) (table : ℕ)
    → (loader_allocate memory table ≡ fox_skipped memory 0 table)
      × (loader_handle memory table ≡ fox_skipped memory 2 table)
unfolding loader_allocate loader_handle fox_skipped through
loader_misplaces memory table = (refl, refl)
