-- ===== src/Loader/Layout/Boot.antt =====
-- The structs of src/uefi_bootloader.c.
use fox_os.Base.{[], ◌∷◌, codes}
use fox_os.Loader.Layout.{Struct, byte, u16, u32, u64, pointer, array}

-- `EFI_GUID`.
abbrev pub boot_guid : Struct
boot_guid =
    u32 (codes "Data1")
    ∷ u16 (codes "Data2")
    ∷ u16 (codes "Data3")
    ∷ array (byte (codes "Data4")) 8
    ∷ []

abbrev pub boot_output : Struct
boot_output =
    pointer (codes "Reset") ∷ pointer (codes "OutputString") ∷ pointer (codes "TestString") ∷ []

abbrev pub boot_image : Struct
boot_image = u64 (codes "Revision") ∷ pointer (codes "ParentHandle") ∷ []

abbrev pub boot_file_system : Struct
boot_file_system = u64 (codes "Revision") ∷ pointer (codes "OpenVolume") ∷ []

abbrev pub boot_file : Struct
boot_file =
    u64 (codes "Revision")
    ∷ pointer (codes "Open")
    ∷ pointer (codes "Close")
    ∷ pointer (codes "Read")
    ∷ pointer (codes "GetInfo")
    ∷ []

abbrev pub boot_table : Struct
boot_table =
    array (byte (codes "_pad")) 52 ∷ pointer (codes "ConOut") ∷ pointer (codes "BootServices") ∷ []

abbrev pub boot_calls : Struct
boot_calls =
    pointer (codes "HandleProtocol")
    ∷ pointer (codes "AllocatePages")
    ∷ pointer (codes "ExitBootServices")
    ∷ []
