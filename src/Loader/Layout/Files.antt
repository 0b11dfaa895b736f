-- ===== src/Loader/Layout/Files.antt =====
-- The protocols of files and volumes, and the loaded image, as the three loaders declare them.
use fox_os.Base.{ℕ, ◌≡◌, ◌⊎◌, inl, inr, refl, List, codes}
use fox_os.Loader.Layout.{Struct, member, struct}
use fox_os.Loader.Layout.Boot.{boot_guid, boot_file, boot_file_system, boot_image}
use fox_os.Loader.Layout.Fox.{fox_guid, fox_file, fox_file_system}
use fox_os.Loader.Layout.Header.{guid, file_protocol, simple_file_system, loaded_image}

-- The two structs have a member in the same place.
abbrev pub IsShared : (ℕ → ℕ) → ℕ → Struct → Struct → List ℕ → List ℕ → Type 0
IsShared memory base s s' name name' = member memory s name base ≡ member memory s' name' base

-- Wherever the interfaces lie in memory, uefi_loader.c, foxos_uefi.c and src/uefi_bootloader.c find
-- OpenVolume, Open, Close and Read in the same places, and the first and the third the parent of a
-- loaded image; an identifier has the same size for all three. But what uefi_loader.c takes for
-- SetPosition the other two take for GetInfo.
pub files_agree :
    (memory : ℕ → ℕ) (file volume image : ℕ)
    → IsShared memory volume simple_file_system fox_file_system
        (codes "OpenVolume")
        (codes "OpenVolume")
      × IsShared memory volume simple_file_system boot_file_system
          (codes "OpenVolume")
          (codes "OpenVolume")
      × ((name : List ℕ)
          → (name ≡ codes "Open") ⊎ ((name ≡ codes "Close") ⊎ (name ≡ codes "Read"))
          → IsShared memory file file_protocol fox_file name name
            × IsShared memory file file_protocol boot_file name name)
      × IsShared memory image loaded_image boot_image (codes "ParentHandle") (codes "ParentHandle")
      × (struct (codes "Guid") guid ≡ struct (codes "Guid") fox_guid)
      × (struct (codes "Guid") guid ≡ struct (codes "Guid") boot_guid)
      × IsShared memory file file_protocol fox_file (codes "SetPosition") (codes "GetInfo")
      × IsShared memory file file_protocol boot_file (codes "SetPosition") (codes "GetInfo")
files_agree memory file volume image = (
  refl,
  refl,
  λ name h. elim h [
    | inl e ↦ rw e (refl, refl)
    | inr i ↦ elim i [ inl e ↦ rw e (refl, refl) | inr e ↦ rw e (refl, refl) ]
  ],
  refl,
  refl,
  refl,
  refl,
  refl,
)
