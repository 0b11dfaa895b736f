-- ===== src/Fs/Listing/Complete.antt =====
-- What `fs_list_dir` writes, and that it stays in its buffer.
use fox_os.Base.{
  ℕ, suc, ◌+◌, ◌*◌, ◌^◌, ◌<◌, ◌≤◌, ◌≡◌, refl, true, false, List, [], ◌∷◌, ◌++◌, some, Run, ret, ltb,
  ◌==◌, All, if◌then◌else◌, length, length-append, arith, Bool-cases, le→leb, lt→leb, lt→ltb,
  le→ltb, ltb_false→le, ne→==, drop, All-get_elem?, All-drop, length-take, length-drop, inl, inr,
  append_assoc, append-nil,
}
use fox_os.Fs.{max_filename, max_files, File, Fs, dir_at, live}
use fox_os.Fs.Table.Inv.{IsTree, live_entry}
use native.Mathlib.Nat.{add-zero}
use fox_os.Fs.Listing.{remaining, entry_line, list_from, list_at}

abbrev pub HasShortName : File → Type 0
HasShortName f = length f.name < max_filename

entry_line-length : (f : File) → HasShortName f → length (entry_line f) ≤ 257
unfolding entry_line
entry_line-length f h =
    ground (arith, length-append f.name (b'/' ∷ b'\n' ∷ []), length-append f.name (b'\n' ∷ []))

-- The lines of the entries of a directory, in the order of the table.
unfoldable pub listing : ℕ → List File → List ℕ
listing dir_index [] = []
listing dir_index (f ∷ files) =
    if f.parent_index == dir_index
    then entry_line f ++ listing dir_index files
    else listing dir_index files

unfoldable pub count_in : ℕ → List File → ℕ
count_in dir_index [] = 0
count_in dir_index (f ∷ files) =
    if f.parent_index == dir_index then count_in dir_index files + 1 else count_in dir_index files

-- The loop ends with a text that leaves room for its NUL in the buffer.
abbrev pub StaysIn : ℕ → Run (ℕ × List ℕ) → Type 0
StaysIn buffer_size r = (n : ℕ) × (out : List ℕ) × (r ≡ ret (n, out)) × (length out < buffer_size)

-- A line fits where the test lets the loop go on.
line_fits :
    (b : ℕ) (text : List ℕ) (f : File)
    → b < 2 ^ 32
    → length text < b
    → HasShortName f
    → ltb (remaining b (length text)) (max_filename + 3) ≡ false
    → length (text ++ entry_line f) < b
line_fits b text f hb ht hs h = omega (
  arith,
  length-append text (entry_line f),
  entry_line-length f hs,
  ltb_false→le (remaining b (length text)) (max_filename + 3) h,
)

pub list_from-StaysIn :
    (files : List File) (i d b : ℕ) (text : List ℕ) (count : ℕ)
    → b < 2 ^ 32
    → length text < b
    → All HasShortName files
    → StaysIn b (list_from files i d b text count)
unfolding list_from
list_from-StaysIn [] i d b text count hb ht hs = (count, text, refl, ht)
list_from-StaysIn (f ∷ files) i d b text count hb ht hs =
    let skipped = list_from-StaysIn files (suc i) d b text count hb ht hs.1 in
    elim (Bool-cases (i == 0)) [
      | inl e ↦ rw e skipped
      | inr e ↦ elim (Bool-cases (f.parent_index == d)) [
        | inr p ↦ rw (e, p) skipped
        | inl p ↦ elim (Bool-cases (ltb (remaining b (length text)) (max_filename + 3))) [
          | inl full ↦ rw (e, p, full) (count, text, refl, ht)
          | inr room ↦
              let grown = line_fits b text f hb ht hs.0 room in
              rw (e, p, room, le→leb (length (text ++ entry_line f)) b (omega arith))
                (list_from-StaysIn files (suc i) d b (text ++ entry_line f) (count + 1) hb grown
                  hs.1)
        ]
      ]
    ]

list_from_complete :
    (files : List File) (i d b : ℕ) (text : List ℕ) (count : ℕ)
    → b < 2 ^ 32
    → length text + 257 * length files + 2 ≤ b
    → All HasShortName files
    → list_from files (suc i) d b text count
      ≡ ret (count + count_in d files, text ++ listing d files)
unfolding list_from count_in listing
list_from_complete [] i d b text count hb ht hs = rw (append-nil, add-zero)
list_from_complete (f ∷ files) i d b text count hb ht hs = elim (Bool-cases (f.parent_index == d)) [
  | inr p ↦
      rw (ne→== (suc i) 0 (λ z. omega arith), p)
        (list_from_complete files (suc i) d b text count hb (omega arith) hs.1)
  | inl p ↦
      let size = length-append text (entry_line f) in
      let line = entry_line-length f hs.0 in
      let e1 : count + (count_in d files + 1) ≡ count + 1 + count_in d files = omega arith in
      rw
        (
          ne→== (suc i) 0 (λ z. omega arith),
          p,
          le→ltb (remaining b (length text)) (max_filename + 3) (omega arith),
          le→leb (length (text ++ entry_line f)) b (omega arith),
          e1,
        )
        (rw append_assoc at (
          list_from_complete files (suc i) d b (text ++ entry_line f) (count + 1) hb (omega arith)
            hs.1))
]

-- The first round skips the root.
list_from-root :
    (files : List File) (d b : ℕ)
    → 257 * 255 + 2 ≤ b
    → b < 2 ^ 32
    → (0 < length files) × (length files ≤ 256)
    → All HasShortName files
    → list_from files 0 d b [] 0 ≡ ret (count_in d (drop 1 files), listing d (drop 1 files))
unfolding list_from
list_from-root [] d b p q n hs = absurd (omega arith)
list_from-root (f ∷ files) d b p q n hs =
    let e : 0 + count_in d files ≡ count_in d files = omega arith in
    rw e at (list_from_complete files 0 d b [] 0 q (omega arith) hs.1)

length-listing :
    (d : ℕ) (files : List File)
    → All HasShortName files
    → length (listing d files) ≤ 257 * length files
unfolding listing
length-listing d [] hs = omega arith
length-listing d (f ∷ files) hs = ground (
  arith,
  length-append (entry_line f) (listing d files),
  entry_line-length f hs.0,
  length-listing d files hs.1,
)

pub live-short : (fs : Fs) → IsTree fs → All HasShortName (live fs)
live-short fs v =
    All-get_elem? HasShortName (live fs)
      (λ i f e. let (l, e') = live_entry fs i f e in (v.parents i f l e').2)

-- `fs_list_dir` of a directory of the table, for every buffer size from 1 to 2 ^ 32 - 1, ends with
-- a text that has its NUL in the buffer: it writes past no end.
list_dir_safe :
    (fs : Fs) (d b : ℕ)
    → IsTree fs
    → dir_at fs.files d ≡ true
    → d < max_files
    → 0 < b
    → b < 2 ^ 32
    → (n : ℕ) × (out : List ℕ) × (list_at fs (some d) b ≡ ret (some n, out)) × (length out < b)
unfolding list_at
list_dir_safe fs d b v h l p q =
    let (n, out, e, s) = list_from-StaysIn (live fs) 0 d b [] 0 q p (live-short fs v) in
    (n, out, rw (lt→leb max_files d l, h, e, lt→ltb (length out) b s), s)

-- With a buffer of at least 65537 bytes, fewer than the 66048 of the `ls` command, `fs_list_dir`
-- of a directory lists all its entries but the root, in the order of the table, and returns their
-- number.
pub list_dir_complete :
    (fs : Fs) (d b : ℕ)
    → IsTree fs
    → dir_at fs.files d ≡ true
    → d < max_files
    → 257 * 255 + 2 ≤ b
    → b < 2 ^ 32
    → list_at fs (some d) b
      ≡ ret (some (count_in d (drop 1 (live fs))), listing d (drop 1 (live fs)))
unfolding list_at
list_dir_complete fs d b v h l p q =
    let short = live-short fs v in
    let files = drop 1 (live fs) in
    let size : (0 < length (live fs)) × (length (live fs) ≤ 256) =
      omega (arith, v.not_empty, v.fits, v.table.cells, length-take fs.file_count fs.files) in
    let fit : length (listing d files) < b = omega (
      arith,
      size,
      length-drop 1 (live fs),
      length-listing d files (All-drop HasShortName 1 (live fs) short),
    ) in
    rw (
      lt→leb max_files d l,
      h,
      list_from-root (live fs) d b p q size short,
      lt→ltb (length (listing d files)) b fit,
    )
