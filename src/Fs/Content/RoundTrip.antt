-- ===== src/Fs/Content/RoundTrip.antt =====
-- What is read from a file after it has been written.
use fox_os.Base.{
  ℕ, zero, suc, ◌≤◌, ◌≡◌, ◌≢◌, refl, sym, ap, true, List, [], ◌∷◌, ◌++◌, some, ret, ◌>>=◌, length,
  arith, take, drop, get_elem?, get_elem?-modify_self, modify, find_index, get_elem?-modify_ne,
  length-append, length-take, length-drop, min, le→leb,
}
use fox_os.Fs.{max_file_size, File, Fs, is_file, find_child, is_named}
use fox_os.Fs.Lookup.{fs_parse_path, fs_get_file}
use fox_os.Fs.Lookup.Resolve.{parse_path_cong}
use fox_os.Fs.Content.{capped, copy_bytes, file_at, write_at, read_at, fs_write, fs_read}

-- Copying within both objects replaces the first bytes of the destination, in place.
copy_bytes_lem :
    (dest src : List ℕ) (size : ℕ)
    → size ≤ length dest
    → size ≤ length src
    → copy_bytes dest src size ≡ ret (take size src ++ drop size dest)
unfolding copy_bytes
copy_bytes_lem dest src size h k = rw (le→leb size (length dest) h, le→leb size (length src) k)

-- The entry after a write of `n` bytes.
abbrev pub written : List ℕ → ℕ → File → File
written bytes n f = record f { content = take n bytes ++ drop n f.content; size = n }

file_at_lem :
    (fs : Fs) (i : ℕ) (f : File)
    → get_elem? fs.files i ≡ some f
    → is_file f.type ≡ true
    → file_at fs (some i) ≡ some f
unfolding file_at
file_at_lem fs i f g t = ground arith

capped_lem : (size limit : ℕ) → capped size limit ≡ min size limit
unfolding capped
capped_lem size limit = ground arith

-- The table after a write.
abbrev pub wrote : Fs → ℕ → List ℕ → ℕ → Fs
wrote fs i content n = record fs {
  files = modify fs.files i (λ g. record g { content = content; size = n });
}

pub write_at-wrote :
    (fs : Fs) (i : ℕ) (f : File) (bytes : List ℕ) (size : ℕ)
    → get_elem? fs.files i ≡ some f
    → is_file f.type ≡ true
    → length f.content ≡ max_file_size
    → size ≤ length bytes
    → let n = min size max_file_size in
      write_at fs (some i) bytes size
      ≡ ret (some n, wrote fs i (take n bytes ++ drop n f.content) n)
unfolding write_at
write_at-wrote fs i f bytes size g t c l = ground (
  arith,
  file_at_lem fs i f g t,
  capped_lem size max_file_size,
  copy_bytes_lem f.content bytes (min size max_file_size) (omega arith) (omega arith),
)

-- `fs_write` to a file of the table, from an object of at least `size` bytes, returns `size` or the
-- 4096 bytes that fit, stores those bytes at the start of the file and that number as its size, and
-- changes no other entry.
write_at_lem :
    (fs : Fs) (i : ℕ) (f : File) (bytes : List ℕ) (size : ℕ)
    → get_elem? fs.files i ≡ some f
    → is_file f.type ≡ true
    → length f.content ≡ max_file_size
    → size ≤ length bytes
    → (fs' : Fs) × (write_at fs (some i) bytes size ≡ ret (some (min size max_file_size), fs'))
      × (get_elem? fs'.files i ≡ some (written bytes (min size max_file_size) f))
      × ((j : ℕ) → j ≢ i → get_elem? fs'.files j ≡ get_elem? fs.files j)
      × (fs'.file_count ≡ fs.file_count)
write_at_lem fs i f bytes size g t c l =
    let n = min size max_file_size in
    (
      wrote fs i (take n bytes ++ drop n f.content) n,
      write_at-wrote fs i f bytes size g t c l,
      get_elem?-modify_self fs.files i _ g,
      λ j ne. get_elem?-modify_ne fs.files i j _ (λ e. ne (sym e)),
      refl,
    )

-- A change of the content leaves what the lookup of names sees.
pub find_index-modify :
    (files : List File) (count i q : ℕ) (m content : List ℕ) (n : ℕ)
    → find_index
        (is_named q m)
        (take count (modify files i (λ g. record g { content = content; size = n })))
      ≡ find_index (is_named q m) (take count files)
find_index-modify files zero i q m content n = refl
find_index-modify [] (suc count) i q m content n = refl
find_index-modify (f ∷ files) (suc count) zero q m content n = refl
find_index-modify (f ∷ files) (suc count) (suc i) q m content n =
    rw (find_index-modify files count i q m content n)

parse_path-wrote :
    (fs : Fs) (i : ℕ) (content : List ℕ) (n : ℕ) (path : List ℕ)
    → fs_parse_path (wrote fs i content n) path ≡ fs_parse_path fs path
unfolding find_child
parse_path-wrote fs i content n path =
    parse_path_cong _ fs path (λ q m. find_index-modify fs.files fs.file_count i q m content n)

pub read_at_lem :
    (fs : Fs) (i : ℕ) (f : File) (buffer : List ℕ) (size : ℕ)
    → get_elem? fs.files i ≡ some f
    → is_file f.type ≡ true
    → f.size ≤ length f.content
    → size ≤ length buffer
    → let n = min size f.size in
      read_at fs (some i) buffer size ≡ ret (some n, take n f.content ++ drop n buffer)
unfolding read_at
read_at_lem fs i f buffer size g t c l = ground (
  arith,
  file_at_lem fs i f g t,
  capped_lem size f.size,
  copy_bytes_lem buffer f.content (min size f.size) (omega arith) (omega arith),
)

pub take-take-append :
    (a b : ℕ) (xs ys : List ℕ) → a ≤ b → b ≤ length xs → take a (take b xs ++ ys) ≡ take a xs
take-take-append zero b xs ys h k = refl
take-take-append (suc a) zero xs ys h k = absurd (omega arith)
take-take-append (suc a) (suc b) [] ys h k = absurd (omega arith)
take-take-append (suc a) (suc b) (x ∷ xs) ys h k =
    ap (x ∷◌) (take-take-append a b xs ys (omega arith) (omega arith))

-- What `fs_write` has stored under a path `fs_read` gives back: of `size` bytes written and `wanted`
-- bytes asked for it returns how many there are, at most 4096, and puts exactly those bytes at the
-- start of the buffer, whose other bytes stay. The path leads to a file, and both objects are as
-- large as the calls say.
pub read-write :
    (fs : Fs) (path : List ℕ) (i : ℕ) (f : File) (bytes buffer : List ℕ) (size wanted : ℕ)
    → fs_parse_path fs path ≡ ret (some i)
    → get_elem? fs.files i ≡ some f
    → is_file f.type ≡ true
    → length f.content ≡ max_file_size
    → size ≤ length bytes
    → wanted ≤ length buffer
    → let n = min wanted (min size max_file_size) in
      (fs_write fs path bytes size >>= λ r. fs_read r.1 path buffer wanted)
      ≡ ret (some n, take n bytes ++ drop n buffer)
unfolding fs_write fs_read fs_get_file
read-write fs path i f bytes buffer size wanted p g t c l k =
    let n = min size max_file_size in
    let content = take n bytes ++ drop n f.content in
    rw (
      p,
      write_at-wrote fs i f bytes size g t c l,
      parse_path-wrote fs i content n path,
      p,
      read_at_lem (wrote fs i content n) i (written bytes n f) buffer wanted
          (get_elem?-modify_self fs.files i _ g) t
          (omega (
            arith,
            length-append (take n bytes) (drop n f.content),
            length-take n bytes,
            length-drop n f.content,
          ))
          k,
      take-take-append (min wanted n) n bytes (drop n f.content) (omega arith) (omega arith),
    )
