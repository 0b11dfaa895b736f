-- ===== src/Loader.antt =====
-- The UEFI loaders, uefi_loader.c, foxos_uefi.c, src/uefi_bootloader.c and src/uefitest.c, as the
-- calls that they make of the firmware. The firmware is a parameter.
pub mod KernelFile
pub mod Boot
pub mod Fox
pub mod Files
pub mod ShortRead
pub mod Order
pub mod Layout
pub mod Unread
pub mod Tests
use fox_os.Base.{ℕ, Bool, List, [], ◌∷◌, if◌then◌else◌}

-- `EFI_GUID`, with the bytes of `Data4` in one number.
pub record Guid : Type 0 where
  pub data1 : ℕ
  pub data2 : ℕ
  pub data3 : ℕ
  pub data4 : ℕ

-- A call through a pointer of the firmware's tables, with the arguments that are passed in. A handle,
-- an interface and an address are numbers.
pub data Call : Type 0 where
  output_string : List ℕ → Call
  handle_protocol : ℕ → Guid → Call
  locate_protocol : Guid → Call
  open_volume : ℕ → Call
  -- the directory, the path, the mode, the attributes
  open_file : ℕ → List ℕ → ℕ → ℕ → Call
  close : ℕ → Call
  -- the file, the size, the buffer
  read : ℕ → ℕ → ℕ → Call
  set_position : ℕ → ℕ → Call
  get_position : ℕ → Call
  -- the file, the kind of information, the size, the buffer
  get_info : ℕ → Guid → ℕ → ℕ → Call
  allocate_pool : ℕ → ℕ → Call
  free_pool : ℕ → Call
  -- the way to allocate, the type of memory, the number of pages
  allocate_pages : ℕ → ℕ → ℕ → Call
  -- the image, the key of the memory map
  exit_boot_services : ℕ → ℕ → Call

-- The status of a call, and what stands in the variable behind its output pointer afterwards.
pub record Reply : Type 0 where
  pub status : ℕ
  pub out : ℕ

-- What is read from memory: a field of a loaded image, the 64-bit word at an address, a variable
-- that has not been set.
pub data Place : Type 0 where
  parent_handle : ℕ → Place
  device_handle : ℕ → Place
  word : ℕ → Place
  unset : Place

-- A loader: the value returned; a call, and what is done with its reply; a value read; the call of
-- the kernel at an address, and what is done when it comes back.
pub data Prog : Type 0 where
  done : ℕ → Prog
  ask : Call → (Reply → Prog) → Prog
  look : Place → (ℕ → Prog) → Prog
  enter : ℕ → Prog → Prog

-- What has happened, the latest first.
pub data Event : Type 0 where
  called : Call → Reply → Event
  entered : ℕ → Event

-- The firmware, the memory, and whether a kernel comes back, each a function of what has happened.
pub record Machine : Type 0 where
  pub answer : List Event → Call → Reply
  pub value : List Event → Place → ℕ
  pub comes_back : List Event → Bool

pub data Outcome : Type 0 where
  returns : ℕ → List Event → Outcome
  stays : List Event → Outcome

unfoldable pub run : Machine → Prog → List Event → Outcome
run m (done v) t = returns v t
run m (ask c next) t = let r = m.answer t c in run m (next r) (called c r ∷ t)
run m (look p next) t = run m (next (m.value t p)) t
run m (enter a next) t =
    let t' = entered a ∷ t in let back = run m next t' in if m.comes_back t' then back else stays t'

-- `OutputString`, whose status no loader looks at.
abbrev pub say : List ℕ → Prog → Prog
say text next = ask (output_string text) (λ r. next)
