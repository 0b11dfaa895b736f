-- ===== src/Loader/Boot.antt =====
-- `UefiMain` of src/uefi_bootloader.c, and of src/uefitest.c.
use fox_os.Base.{ℕ, ◌==◌, ◌+◌, ◌/◌, ◌%◌, ◌^◌, List, codes, take, if◌then◌else◌}
use fox_os.Loader.{
  Guid, handle_protocol, open_volume, open_file, read, get_info, allocate_pages, exit_boot_services,
  Reply, parent_handle, word, Prog, done, ask, look, enter, say,
}

-- `EFI_SIZE_TO_PAGES` on 64 bits.
abbrev pub size_to_pages : ℕ → ℕ
size_to_pages size = (size + 0xfff) % 2 ^ 64 / 2 ^ 12

abbrev pub loaded_guid : Guid
loaded_guid = record {
  data1 = 0x5b1b31a1;
  data2 = 0x9562;
  data3 = 0x11d2;
  data4 = 0x8e3f00a0c969723b;
}

abbrev pub fs_guid : Guid
fs_guid = record { data1 = 0x0964e5b2; data2 = 0x6459; data3 = 0x11d2; data4 = 0x8e3900a0c969723b }

abbrev pub file_info_guid : Guid
file_info_guid = record {
  data1 = 0x09576e92;
  data2 = 0x6d3f;
  data3 = 0x11d2;
  data4 = 0x8e3900a0c969723b;
}

-- `Print`: 255 characters fit in its buffer before the NUL.
unfoldable pub print : List ℕ → Prog → Prog
print text next = say (take 255 text) next

-- Goes on where the status is 0, and else prints the message and returns the status.
abbrev pub checked : Reply → List ℕ → Prog → Prog
checked r message next = if r.status == 0 then next else print message (done r.status)

unfoldable pub check_signature : ℕ → Prog
check_signature kernel = look (word kernel) (λ w.
    if w == 0x0000ffffb8c30000
    then done 0
    else print (codes "Invalid kernel signature\r\n") (done 0x8000000000000001))

-- The key of the memory map is 0.
unfoldable pub start_kernel : ℕ → ℕ → Prog
start_kernel image kernel = print (codes "Attempting ExitBootServices\r\n") (
    ask (exit_boot_services image 0) (λ r.
      checked r (codes "ExitBootServices FAILED\r\n")
        (print (codes "Jumping to kernel...\r\n") (enter kernel (check_signature kernel)))))

unfoldable pub read_kernel : ℕ → ℕ → ℕ → Prog
read_kernel image file size = ask (allocate_pages 1 1 (size_to_pages size)) (λ r.
    checked r (codes "Error: AllocatePages 2\r\n") (
      print (codes "Memory allocated\r\n") (
        ask (read file size r.out) (λ r'.
          checked r' (codes "Error: Read kernel\r\n")
            (print (codes "Kernel loaded\r\n") (start_kernel image r.out))))))

unfoldable pub read_info : ℕ → ℕ → ℕ → Prog
read_info image file info_size = ask (allocate_pages 1 2 (size_to_pages info_size)) (λ r.
    checked r (codes "Error: AllocatePages 1\r\n") (
      ask (get_info file file_info_guid info_size r.out) (λ r'.
        checked r' (codes "Error: GetInfo 2\r\n") (
          look (word (r.out + 32))
            (λ size. print (codes "Kernel size detected\r\n") (read_kernel image file size))))))

-- 0x8000000000000005 is EFI_BUFFER_TOO_SMALL.
unfoldable pub measure : ℕ → ℕ → Prog
measure image file = ask (get_info file file_info_guid 0 0) (λ r.
    if r.status == 0x8000000000000005
    then read_info image file r.out
    else print (codes "Error: GetInfo 1\r\n") (done r.status))

abbrev pub boot_path : List ℕ
boot_path = codes "EFI\\FOXOS\\kernel.bin"

unfoldable pub open_boot_file : ℕ → ℕ → Prog
open_boot_file image root = ask (open_file root boot_path 1 0) (λ r.
    checked r (codes "Error: Open kernel.bin\r\n")
      (print (codes "Kernel file opened\r\n") (measure image r.out)))

unfoldable pub open_disk : ℕ → ℕ → Prog
open_disk image device = ask (handle_protocol device fs_guid) (λ r.
    checked r (codes "Error: HandleProtocol 2\r\n") (
      ask (open_volume r.out) (λ r'.
        checked r' (codes "Error: OpenVolume\r\n")
          (print (codes "Volume opened\r\n") (open_boot_file image r'.out)))))

unfoldable pub boot_main : ℕ → Prog
boot_main image = print (codes "Bootloader started\r\n") (
    ask (handle_protocol image loaded_guid) (λ r.
      checked r (codes "Error: HandleProtocol 1\r\n")
        (look (parent_handle r.out) (λ device. open_disk image device))))

unfoldable pub test_main : Prog
test_main = say (codes "Hello World!\r\n") (done 0)
