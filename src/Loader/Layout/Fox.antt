-- ===== src/Loader/Layout/Fox.antt =====
-- The structs of foxos_uefi.c.
use fox_os.Base.{[], ◌∷◌, codes}
use fox_os.Loader.Layout.{Struct, byte, u16, u32, u64, pointer, array, struct}

-- `EFI_GUID`.
abbrev pub fox_guid : Struct
fox_guid =
    u32 (codes "Data1")
    ∷ u16 (codes "Data2")
    ∷ u16 (codes "Data3")
    ∷ array (byte (codes "Data4")) 8
    ∷ []

abbrev pub fox_header : Struct
fox_header =
    u64 (codes "Signature")
    ∷ u32 (codes "Revision")
    ∷ u32 (codes "HeaderSize")
    ∷ u32 (codes "CRC32")
    ∷ u32 (codes "Reserved")
    ∷ []

abbrev pub fox_output : Struct
fox_output = pointer (codes "Reset") ∷ pointer (codes "OutputString") ∷ []

abbrev pub fox_table : Struct
fox_table =
    struct (codes "Hdr") fox_header
    ∷ pointer (codes "FirmwareVendor")
    ∷ u32 (codes "FirmwareRevision")
    ∷ pointer (codes "ConsoleInHandle")
    ∷ pointer (codes "ConIn")
    ∷ pointer (codes "ConsoleOutHandle")
    ∷ pointer (codes "ConOut")
    ∷ pointer (codes "StandardErrorHandle")
    ∷ pointer (codes "StdErr")
    ∷ pointer (codes "RuntimeServices")
    ∷ pointer (codes "BootServices")
    ∷ []

abbrev pub fox_services : Struct
fox_services =
    struct (codes "Hdr") fox_header
    ∷ array (u64 (codes "_pad_before_allocate_pool")) 5
    ∷ pointer (codes "AllocatePool")
    ∷ array (u64 (codes "_pad_before_locate_protocol")) 10
    ∷ pointer (codes "LocateProtocol")
    ∷ []

abbrev pub fox_file_system : Struct
fox_file_system = u64 (codes "Revision") ∷ pointer (codes "OpenVolume") ∷ []

abbrev pub fox_file : Struct
fox_file =
    u64 (codes "Revision")
    ∷ pointer (codes "Open")
    ∷ pointer (codes "Close")
    ∷ pointer (codes "Read")
    ∷ pointer (codes "GetInfo")
    ∷ []
