-- ===== src/Loader/Layout.antt =====
-- The structs of the firmware's tables as uefi_loader.c (in Uefi.h), foxos_uefi.c,
-- src/uefi_bootloader.c and src/uefitest.c declare them, in the layout of C on 64 bits: each member
-- at the next multiple of its alignment. Each of them describes the same tables.
pub mod Header
pub mod Fox
pub mod Boot
pub mod Slots
pub mod Files
use fox_os.Base.{
  ℕ, ◌+◌, ◌-◌, ◌*◌, ◌/◌, ◌==◌, ◌&&◌, Bool, true, false, List, [], ◌∷◌, Option, none, some, codes,
  if◌then◌else◌, leb,
}

pub record Member : Type 0 where
  pub name : List ℕ
  pub size : ℕ
  pub alignment : ℕ

abbrev pub Struct : Type 0
Struct = List Member

-- The types of the members.
abbrev pub byte : List ℕ → Member
byte name = record { name = name; size = 1; alignment = 1 }

abbrev pub u16 : List ℕ → Member
u16 name = record { name = name; size = 2; alignment = 2 }

abbrev pub u32 : List ℕ → Member
u32 name = record { name = name; size = 4; alignment = 4 }

abbrev pub u64 : List ℕ → Member
u64 name = record { name = name; size = 8; alignment = 8 }

abbrev pub pointer : List ℕ → Member
pointer name = record { name = name; size = 8; alignment = 8 }

abbrev pub array : Member → ℕ → Member
array of count = record of { size = of.size * count }

-- The next multiple.
abbrev pub align : ℕ → ℕ → ℕ
align offset alignment = (offset + (alignment - 1)) / alignment * alignment

abbrev pub same_name : List ℕ → List ℕ → Bool
same_name [] [] = true
same_name [] (y ∷ ys) = false
same_name (x ∷ xs) [] = false
same_name (x ∷ xs) (y ∷ ys) = (x == y) && same_name xs ys

abbrev offset_from : ℕ → Struct → List ℕ → Option ℕ
offset_from offset [] name = none
offset_from offset (m ∷ ms) name =
    let at = align offset m.alignment in
    let rest = offset_from (at + m.size) ms name in if same_name m.name name then some at else rest

-- `offsetof`.
abbrev pub offset_of : Struct → List ℕ → Option ℕ
offset_of s name = offset_from 0 s name

abbrev alignment_of : Struct → ℕ
alignment_of [] = 1
alignment_of (m ∷ ms) =
    let rest = alignment_of ms in if leb m.alignment rest then rest else m.alignment

abbrev end_from : ℕ → Struct → ℕ
end_from offset [] = offset
end_from offset (m ∷ ms) = end_from (align offset m.alignment + m.size) ms

-- A member that is a struct itself: its size is a multiple of its alignment.
abbrev pub struct : List ℕ → Struct → Member
struct name s = record {
  name = name;
  size = align (end_from 0 s) (alignment_of s);
  alignment = alignment_of s;
}

-- `base->name[i]` of an array of words, where memory gives the 64-bit word at each address.
abbrev pub element : (ℕ → ℕ) → Struct → List ℕ → ℕ → ℕ → Option ℕ
element memory s name i base = elim (offset_of s name) [
  | none ↦ none
  | some offset ↦ some (memory (base + (offset + 8 * i)))
]

-- `base->name`, a word.
abbrev pub member : (ℕ → ℕ) → Struct → List ℕ → ℕ → Option ℕ
member memory s name base = element memory s name 0 base
