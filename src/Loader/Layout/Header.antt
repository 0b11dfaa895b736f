-- ===== src/Loader/Layout/Header.antt =====
-- The structs of Uefi.h, and of src/uefitest.c.
use fox_os.Base.{[], ◌∷◌, codes}
use fox_os.Loader.Layout.{Struct, byte, u16, u32, u64, pointer, array, struct}

-- `EFI_GUID`.
abbrev pub guid : Struct
guid =
    u32 (codes "Data1")
    ∷ u16 (codes "Data2")
    ∷ u16 (codes "Data3")
    ∷ array (byte (codes "Data4")) 8
    ∷ []

abbrev pub table_header : Struct
table_header =
    u64 (codes "Signature")
    ∷ u32 (codes "Revision")
    ∷ u32 (codes "HeaderSize")
    ∷ u32 (codes "CRC32")
    ∷ u32 (codes "Reserved")
    ∷ []

abbrev pub text_output : Struct
text_output = pointer (codes "Reset") ∷ pointer (codes "OutputString") ∷ []

abbrev pub system_table : Struct
system_table =
    struct (codes "Hdr") table_header
    ∷ pointer (codes "FirmwareVendor")
    ∷ u32 (codes "FirmwareRevision")
    ∷ pointer (codes "ConsoleInHandle")
    ∷ pointer (codes "ConIn")
    ∷ pointer (codes "ConsoleOutHandle")
    ∷ pointer (codes "ConOut")
    ∷ pointer (codes "StandardErrorHandle")
    ∷ pointer (codes "StdErr")
    ∷ pointer (codes "RuntimeServices")
    ∷ pointer (codes "BootServices")
    ∷ []

abbrev pub boot_services : Struct
boot_services =
    struct (codes "Hdr") table_header
    ∷ pointer (codes "AllocatePool")
    ∷ pointer (codes "FreePool")
    ∷ pointer (codes "HandleProtocol")
    ∷ []

abbrev pub device_path : Struct
device_path = byte (codes "Type") ∷ byte (codes "SubType") ∷ u16 (codes "Length") ∷ []

abbrev pub loaded_image : Struct
loaded_image =
    u32 (codes "Revision")
    ∷ pointer (codes "ParentHandle")
    ∷ pointer (codes "SystemTable")
    ∷ pointer (codes "DeviceHandle")
    ∷ pointer (codes "FilePath")
    ∷ pointer (codes "Reserved")
    ∷ u32 (codes "LoadOptionsSize")
    ∷ pointer (codes "LoadOptions")
    ∷ []

abbrev pub file_protocol : Struct
file_protocol =
    u64 (codes "Revision")
    ∷ pointer (codes "Open")
    ∷ pointer (codes "Close")
    ∷ pointer (codes "Read")
    ∷ pointer (codes "SetPosition")
    ∷ pointer (codes "GetPosition")
    ∷ []

abbrev pub simple_file_system : Struct
simple_file_system = u64 (codes "Revision") ∷ pointer (codes "OpenVolume") ∷ []

-- `EFI_SIMPLE_TEXT_OUTPUT_PROTOCOL` and `EFI_SYSTEM_TABLE` of src/uefitest.c.
abbrev pub test_output : Struct
test_output =
    pointer (codes "Reset") ∷ pointer (codes "OutputString") ∷ pointer (codes "TestString") ∷ []

abbrev pub test_table : Struct
test_table = array (byte (codes "_pad")) 60 ∷ pointer (codes "ConOut") ∷ []
