-- ===== src/Fs/View/Content.antt =====
-- `fs_read` and `fs_write` on the files as their users see them.
use fox_os.Base.{
  ℕ, zero, suc, ◌≤◌, ◌≡◌, refl, ap, false, List, [], ◌∷◌, ◌++◌, Option, none, some, ret, length,
  arith, take, drop, get_elem?, min, All, length-take, Option-cases, inl, inr,
}
use fox_os.Fs.{FileType, file_type_none, file_type_file, file_type_dir, is_file, File, Fs}
use fox_os.Fs.Lookup.{fs_get_file}
use fox_os.Fs.Lookup.Resolve.{components, resolve, IsShort, parse_path_resolves}
use fox_os.Fs.Content.{fs_read, read_at, file_at}
use fox_os.Fs.Content.RoundTrip.{read_at_lem}
use fox_os.Fs.Sound.{resolve-lt}
use fox_os.Fs.Table.Inv.{IsTree}
use fox_os.Fs.View.{
  Node, untyped, directory, regular, node_of, node_at, node_at-entry, node_at-none, view,
}

-- What `fs_read` promises: the first bytes of a file, and -1 for anything else.
unfoldable pub read_spec : Option Node → List ℕ → ℕ → Option ℕ × List ℕ
read_spec none buffer size = (none, buffer)
read_spec (some untyped) buffer size = (none, buffer)
read_spec (some directory) buffer size = (none, buffer)
read_spec (some (regular text)) buffer size =
    let n = min size (length text) in (some n, take n text ++ drop n buffer)

pub take-take : (m n : ℕ) (xs : List ℕ) → m ≤ n → take m (take n xs) ≡ take m xs
take-take zero n xs h = refl
take-take (suc m) zero xs h = absurd (omega arith)
take-take (suc m) (suc n) [] h = refl
take-take (suc m) (suc n) (x ∷ xs) h = ap (x ∷◌) (take-take m n xs (omega arith))

-- An entry that is no file is not read.
not_read :
    (fs : Fs) (i : ℕ) (f : File) (buffer : List ℕ) (size : ℕ)
    → get_elem? fs.files i ≡ some f
    → is_file f.type ≡ false
    → read_at fs (some i) buffer size ≡ ret (none, buffer)
unfolding read_at file_at
not_read fs i f buffer size e t = ground arith

read_entry :
    (fs : Fs) (i : ℕ) (f : File) (t : FileType) (buffer : List ℕ) (size : ℕ)
    → get_elem? fs.files i ≡ some f
    → f.type ≡ t
    → f.size ≤ length f.content
    → size ≤ length buffer
    → read_at fs (some i) buffer size ≡ ret (read_spec (some (node_of f)) buffer size)
unfolding read_spec
read_entry fs i f file_type_none buffer size e t fits l =
    rw t (not_read fs i f buffer size e (rw t refl))
read_entry fs i f file_type_dir buffer size e t fits l =
    rw t (not_read fs i f buffer size e (rw t refl))
read_entry fs i f file_type_file buffer size e t fits l =
    let n : length (take f.size f.content) ≡ f.size = omega (arith, length-take f.size f.content) in
    rw (t, n, take-take (min size f.size) f.size f.content (omega arith))
      (read_at_lem fs i f buffer size e (rw t refl) fits l)

not_there :
    (fs : Fs) (i : ℕ) (buffer : List ℕ) (size : ℕ)
    → get_elem? fs.files i ≡ none
    → read_at fs (some i) buffer size ≡ ret (none, buffer)
unfolding read_at file_at
not_there fs i buffer size e = ground arith

read_at-view :
    (fs : Fs) (r : Option ℕ) (buffer : List ℕ) (size : ℕ)
    → ((i : ℕ) (f : File) → r ≡ some i → get_elem? fs.files i ≡ some f → f.size ≤ length f.content)
    → size ≤ length buffer
    → read_at fs r buffer size ≡ ret (read_spec (node_at fs r) buffer size)
unfolding read_spec
read_at-view fs none buffer size fits l = unfold read_at file_at in refl
read_at-view fs (some i) buffer size fits l = elim (Option-cases (get_elem? fs.files i)) [
  | inl e ↦ rw (node_at-none fs i e) (not_there fs i buffer size e)
  | inr (f, e) ↦
      rw (node_at-entry fs i f e) (read_entry fs i f f.type buffer size e refl (fits i f refl e) l)
]

entry_fits :
    {fs : Fs} (v : IsTree fs) (names : List (List ℕ)) (i : ℕ) (f : File)
    → resolve fs 0 names ≡ some i
    → get_elem? fs.files i ≡ some f
    → f.size ≤ length f.content
entry_fits {fs} v names i f r e =
    omega (arith, (v.parents i f (resolve-lt fs 0 names v.not_empty r) e).3, v.table.contents i f e)

-- `fs_read` of any path gives what stands there: the first bytes of a file, as many as it has and
-- are asked for, in front of the rest of the buffer; -1 for a directory and for nothing. The
-- components of the path are shorter than 256 bytes, the buffer has the size of the call, and the
-- table is a tree.
pub read_refines :
    (fs : Fs) (path buffer : List ℕ) (size : ℕ)
    → IsTree fs
    → All IsShort (components path)
    → size ≤ length buffer
    → fs_read fs path buffer size ≡ ret (read_spec (view fs (components path)) buffer size)
unfolding fs_read fs_get_file view
read_refines fs path buffer size v s l = rw (parse_path_resolves fs path s) (
    read_at-view fs (resolve fs 0 (components path)) buffer size
      (λ i f r e. entry_fits v (components path) i f r e) l)
