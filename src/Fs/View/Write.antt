-- ===== src/Fs/View/Write.antt =====
-- `fs_write` on the files as their users see them.
use native.Mathlib.Decide.{ℕ_discrete}
use fox_os.Base.{
  ℕ, ◌≤◌, ◌≡◌, refl, sym, ap, ◌∙◌, false, List, ◌++◌, Option, none, some, Run, ret, length, arith,
  take, drop, get_elem?, min, All, length-take, Option-cases, inl, inr, get_elem?-modify_self,
  get_elem?-modify_ne, length-append, length-drop, some-get_elem?,
}
use fox_os.Fs.{
  max_file_size, FileType, file_type_none, file_type_file, file_type_dir, is_file, File, Fs,
  find_child,
}
use fox_os.Fs.Lookup.{fs_get_file}
use fox_os.Fs.Lookup.Resolve.{components, resolve, IsShort, parse_path_resolves}
use fox_os.Fs.Content.{fs_write, write_at, file_at}
use fox_os.Fs.Content.RoundTrip.{wrote, write_at-wrote, take-take-append, find_index-modify}
use fox_os.Fs.Sound.{resolve-lt}
use fox_os.Fs.Table.Inv.{IsTree}
use fox_os.Fs.View.{
  Node, untyped, directory, regular, node_at, node_at-entry, node_at-same, resolve_cong, view,
  IsName, same_path,
}
use fox_os.Fs.View.Update.{IsUpdate}
use fox_os.Fs.View.Names.{components-IsName}
use fox_os.Text.{IsText}
use fox_os.Fs.View.Wrote.{wrote-IsTree}

-- The bytes that are put in the place of a file; a directory, and nothing, stay.
unfoldable pub overwrite : Option Node → List ℕ → Option Node
overwrite none text = none
overwrite (some untyped) text = some untyped
overwrite (some directory) text = some directory
overwrite (some (regular old)) text = some (regular text)

-- The result: how many bytes have been written, or -1.
unfoldable pub write_result : Option Node → ℕ → Option ℕ
write_result none n = none
write_result (some untyped) n = none
write_result (some directory) n = none
write_result (some (regular old)) n = some n

IsUpdate-same : (fs : Fs) (p : List (List ℕ)) → IsUpdate (view fs) (view fs) p (view fs p)
IsUpdate-same fs p = record { here = refl; elsewhere = λ q h n. refl }

resolve-wrote :
    (fs : Fs) (k i n : ℕ) (content : List ℕ) (names : List (List ℕ))
    → resolve (wrote fs i content n) k names ≡ resolve fs k names
unfolding find_child
resolve-wrote fs k i n content names =
    resolve_cong fs (wrote fs i content n) k names
      (λ q m. find_index-modify fs.files fs.file_count i q m content n)

-- A file that is overwritten.
write-IsUpdate :
    (fs : Fs) (p : List (List ℕ)) (i : ℕ) (f : File) (text : List ℕ) (n : ℕ)
    → IsTree fs
    → All IsName p
    → resolve fs 0 p ≡ some i
    → get_elem? fs.files i ≡ some f
    → f.type ≡ file_type_file
    → n ≤ max_file_size
    → n ≤ length text
    → IsUpdate
        (view fs)
        (view (wrote fs i (take n text ++ drop n f.content) n))
        p
        (some (regular (take n text)))
unfolding view
write-IsUpdate fs p i f text n v h r e t l k =
    let content = take n text ++ drop n f.content in
    let fs' = wrote fs i content n in
    record {
      here =
          ap (node_at fs') (resolve-wrote fs 0 i n content p ∙ r)
          ∙ node_at-entry fs' i _ (get_elem?-modify_self fs.files i _ e)
          ∙ rw (t, take-take-append n n text (drop n f.content) (omega arith) k) refl;
      elsewhere = λ q names ne. elim (Option-cases (resolve fs 0 q)) [
        | inl m ↦ ap (node_at fs') (resolve-wrote fs 0 i n content q ∙ m) ∙ sym (ap (node_at fs) m)
        | inr (j, m) ↦ elim (ℕ_discrete i j) [
          | yes z ↦ absurd (ne (same_path v q p i names h (m ∙ ap some (sym z)) r))
          | no z ↦
              ap (node_at fs') (resolve-wrote fs 0 i n content q ∙ m)
              ∙ node_at-same fs fs' j (get_elem?-modify_ne fs.files i j _ z)
              ∙ sym (ap (node_at fs) m)
        ]
      ];
    }

not_written :
    (fs : Fs) (i : ℕ) (f : File) (bytes : List ℕ) (size : ℕ)
    → get_elem? fs.files i ≡ some f
    → is_file f.type ≡ false
    → write_at fs (some i) bytes size ≡ ret (none, fs)
unfolding write_at file_at
not_written fs i f bytes size e t = ground arith

-- What a write promises of the table that it leaves.
abbrev Writes : Fs → List (List ℕ) → List ℕ → ℕ → Run (Option ℕ × Fs) → Type 0
Writes fs p text n r =
    (fs' : Fs) × (r ≡ ret (write_result (view fs p) n, fs'))
    × IsTree fs'
    × IsUpdate (view fs) (view fs') p (overwrite (view fs p) text)

-- Where there is no file, nothing is written.
refused-Writes :
    (fs : Fs) (p : List (List ℕ)) (text : List ℕ) (n : ℕ) (o : Option Node)
    (r : Run (Option ℕ × Fs))
    → IsTree fs
    → view fs p ≡ o
    → write_result o n ≡ none
    → overwrite o text ≡ o
    → r ≡ ret (none, fs)
    → Writes fs p text n r
refused-Writes fs p text n o r v e w k h =
    (fs, h ∙ rw (e, w) refl, v, record { here = rw (e, k) refl; elsewhere = λ q a b. refl })

module _ (fs : Fs) (p : List (List ℕ)) (names : All IsName p) (bytes : List ℕ) (size : ℕ)
    (v : IsTree fs) (l : size ≤ length bytes) where
  entry-Writes :
      (i : ℕ) (f : File) (t : FileType)
      → resolve fs 0 p ≡ some i
      → get_elem? fs.files i ≡ some f
      → f.type ≡ t
      → Writes fs p
          (take (min size max_file_size) bytes)
          (min size max_file_size)
          (write_at fs (some i) bytes size)
  unfolding view write_result overwrite
  entry-Writes i f file_type_none r e t =
      refused-Writes fs p _ _ (some untyped) _ v
        (ap (node_at fs) r ∙ node_at-entry fs i f e ∙ rw t refl) refl refl
        (not_written fs i f bytes size e (rw t refl))
  entry-Writes i f file_type_dir r e t =
      refused-Writes fs p _ _ (some directory) _ v
        (ap (node_at fs) r ∙ node_at-entry fs i f e ∙ rw t refl) refl refl
        (not_written fs i f bytes size e (rw t refl))
  entry-Writes i f file_type_file r e t =
      let n = min size max_file_size in
      let full = v.table.contents i f e in
      let old : view fs p ≡ some (regular (take f.size f.content)) =
        ap (node_at fs) r ∙ node_at-entry fs i f e ∙ rw t refl in
      let content = take n bytes ++ drop n f.content in
      (
        wrote fs i content n,
        write_at-wrote fs i f bytes size e (rw t refl) full l ∙ rw old refl,
        wrote-IsTree fs i n content v (omega arith) (
            omega (
              arith,
              full,
              length-append (take n bytes) (drop n f.content),
              length-take n bytes,
              length-drop n f.content,
            )),
        rw old (write-IsUpdate fs p i f bytes n v names r e t (omega arith) (omega arith)),
      )

  resolved-Writes :
      (r : Option ℕ)
      → resolve fs 0 p ≡ r
      → Writes fs p
          (take (min size max_file_size) bytes)
          (min size max_file_size)
          (write_at fs r bytes size)
  unfolding view write_at write_result overwrite
  resolved-Writes none e = refused-Writes fs p _ _ none _ v (ap (node_at fs) e) refl refl refl
  resolved-Writes (some i) e =
      let (f, g) =
        some-get_elem? fs.files i
          (omega (arith, v.table.cells, v.fits, resolve-lt fs 0 p v.not_empty e)) in
      entry-Writes i f f.type e g refl

-- `fs_write` of any path: of a file, the bytes, at most 4096, are what stands there afterwards, and
-- their number is returned; of a directory, or where nothing stands, -1 is returned. Nothing else
-- changes under any other list of names, and the table stays a tree. The components of the path are
-- shorter than 256 bytes, and the object written from has the size of the call.
pub write_refines :
    (fs : Fs) (path bytes : List ℕ) (size : ℕ)
    → IsTree fs
    → IsText path
    → All IsShort (components path)
    → size ≤ length bytes
    → let n = min size max_file_size in
      let old = view fs (components path) in
      (fs' : Fs) × (fs_write fs path bytes size ≡ ret (write_result old n, fs'))
      × IsTree fs'
      × IsUpdate (view fs) (view fs') (components path) (overwrite old (take n bytes))
unfolding fs_write fs_get_file
write_refines fs path bytes size v t s l =
    rw (parse_path_resolves fs path s)
      (resolved-Writes fs (components path) (components-IsName path t) bytes size v l _ refl)
