-- ===== src/Loader/Fox.antt =====
-- `UefiMain` of foxos_uefi.c.
use fox_os.Base.{ℕ, ◌==◌, List, codes, if◌then◌else◌}
use fox_os.Loader.{
  Guid, locate_protocol, open_volume, open_file, read, get_info, allocate_pool, Reply, unset, Prog,
  done, ask, look, enter, say,
}

abbrev pub simple_fs_guid : Guid
simple_fs_guid = record {
  data1 = 0x964e5b22;
  data2 = 0x6459;
  data3 = 0x11d2;
  data4 = 0x8e3900a0c969723b;
}

abbrev pub info_guid : Guid
info_guid = record {
  data1 = 0x09576e92;
  data2 = 0x6d3f;
  data3 = 0x11d2;
  data4 = 0x8e3900a0c969723b;
}

-- `if(status) return status;`
abbrev pub or_return : Reply → Prog → Prog
or_return r next = if r.status == 0 then next else done r.status

-- None of the three calls is checked, and the size passed to `GetInfo` has not been set.
unfoldable pub read_and_enter : ℕ → Prog
read_and_enter file = look unset (λ unset_size. ask (get_info file info_guid unset_size 0) (λ size.
    ask (allocate_pool 0 size.out) (λ buffer.
      ask (read file size.out buffer.out)
        (λ r. say (codes "Read Kernel File\r\n") (enter buffer.out (done 0))))))

abbrev pub fox_path : List ℕ
fox_path = codes "/EFI/FOXOS/kernel.bin"

unfoldable pub fox_main : Prog
fox_main = say (codes "Hello World!\r\n") (
    say (codes "Starting FoxOS UEFI\r\n") (
      ask (locate_protocol simple_fs_guid) (λ fs. or_return fs (
        say (codes "Loaded Simple File System Protocol\r\n") (
          ask (open_volume fs.out) (λ root. or_return root (
            say (codes "Opened Root Volume\r\n") (
              ask (open_file root.out fox_path 1 0) (λ file.
                or_return file
                  (say (codes "Opened Kernel File\r\n") (read_and_enter file.out)))))))))))
