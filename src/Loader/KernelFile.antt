-- ===== src/Loader/KernelFile.antt =====
-- `UefiMain` of uefi_loader.c, with the declarations of Uefi.h.
use fox_os.Base.{ℕ, Bool, ◌==◌, ◌&&◌, ◌^◌, leb, List, codes, if◌then◌else◌}
use fox_os.Loader.{
  Guid, handle_protocol, open_volume, open_file, close, read, set_position, get_position,
  allocate_pool, free_pool, Reply, device_handle, unset, Prog, done, ask, look, say,
}

abbrev pub loaded_image_guid : Guid
loaded_image_guid = record {
  data1 = 0x5b1b31a1;
  data2 = 0x9562;
  data3 = 0x11d2;
  data4 = 0x8e3f00a0c969723b;
}

abbrev pub file_system_guid : Guid
file_system_guid = record {
  data1 = 0x964e5b22;
  data2 = 0x6459;
  data3 = 0x11d2;
  data4 = 0x8e3900a0c969723b;
}

-- `EFI_ERROR` of Uefi.h: the status is negative as a signed number of 64 bits.
abbrev pub efi_error : ℕ → Bool
efi_error status = leb (2 ^ 63) status

-- `Close` of both files, and what comes then.
abbrev pub close_both : ℕ → ℕ → Prog → Prog
close_both root file next = ask (close file) (λ r. ask (close root) (λ r'. next))

-- Once the file has been read. The status of a short read may be 0.
unfoldable pub loaded : ℕ → ℕ → ℕ → ℕ → Reply → Prog
loaded root file size buffer r =
    if (r.status == 0) && (r.out == size)
    then close_both root file (say (codes "Kernel loaded successfully!\r\n") (done 0))
    else say (codes "Error reading kernel file\r\n")
        (ask (free_pool buffer) (λ r'. close_both root file (done r.status)))

-- From the allocation on.
unfoldable pub load : ℕ → ℕ → ℕ → Prog
load root file size = ask (allocate_pool 1 size) (λ r.
    if r.status == 0
    then ask (read file size r.out) (λ r'. loaded root file size r.out r')
    else say (codes "Memory allocation failed\r\n") (close_both root file (done r.status)))

-- The size is the position of the file's end.
unfoldable pub find_size : ℕ → ℕ → Prog
find_size root file = ask (set_position file 0xffffffffffffffff) (λ r.
    ask (get_position file) (λ size. ask (set_position file 0) (λ r'. load root file size.out)))

abbrev pub kernel_path : List ℕ
kernel_path = codes "\\EFI\\FOXOS\\kernel.bin"

unfoldable pub open_kernel : ℕ → Prog
open_kernel root = ask (open_file root kernel_path 1 0) (λ r.
    if r.status == 0
    then find_size root r.out
    else say (codes "Error opening kernel file\r\n") (ask (close root) (λ r'. done r.status)))

unfoldable pub open_root : ℕ → Prog
open_root file_system = ask (open_volume file_system) (λ r.
    if r.status == 0
    then open_kernel r.out
    else say (codes "Error opening volume\r\n") (done r.status))

unfoldable pub find_file_system : ℕ → Prog
find_file_system device = ask (handle_protocol device file_system_guid) (λ r.
    if r.status == 0
    then open_root r.out
    else say (codes "Error getting FileSystemProtocol\r\n") (done r.status))

-- After the first message of an error, the `status` returned is the variable of the inner block,
-- which has not been set.
unfoldable pub loader_main : ℕ → Prog
loader_main image = say (codes "Hello World!\r\n") (
    ask (handle_protocol image loaded_image_guid) (λ r.
      if efi_error r.status
      then say (codes "Error getting LoadedImageProtocol: \r\n") (look unset done)
      else say (codes "Got LoadedImageProtocol\r\n") (look (device_handle r.out) find_file_system)))
