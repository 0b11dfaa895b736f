-- ===== src/Fs/View.antt =====
-- The files as their users see them: what stands under each list of names. The table's indices
-- and its order do not show.
pub mod Update
pub mod Names
pub mod Content
pub mod Wrote
pub mod Write
pub mod Create
pub mod Entries
pub mod Erase
pub mod Moved
pub mod Kept
pub mod Remove
pub mod Lines
pub mod Listed
pub mod Tests
use fox_os.Base.{
  ℕ, zero, suc, ◌<◌, ◌≤◌, ◌≡◌, ◌≢◌, refl, sym, ap, ◌∙◌, true, not, ◌&&◌, List, [], ◌∷◌, ◌++◌,
  Option, none, some, get_elem?, take, All, arith, find_index_sound, append-nil, append_assoc,
  Option-cases, inl, inr, ◌==◌, if◌then◌else◌,
}
use fox_os.Fs.{
  FileType, file_type_none, file_type_file, file_type_dir, File, Fs, live, find_child, is_named,
  dir_at,
}
use fox_os.Fs.Lookup.Resolve.{resolve}
use fox_os.Fs.Table.Inv.{IsTree, live_entry, parent-lt}
use fox_os.Text.{strcmp, is_zero, IsText}

-- A directory, a file with its bytes, or an entry of neither type.
pub data Node : Type 0 where
  untyped directory : Node
  regular : List ℕ → Node

abbrev pub node_of : File → Node
node_of f = elim f.type [
  | file_type_none ↦ untyped
  | file_type_file ↦ regular (take f.size f.content)
  | file_type_dir ↦ directory
]

abbrev pub node_at : Fs → Option ℕ → Option Node
node_at fs none = none
node_at fs (some i) = elim (get_elem? fs.files i) [ none ↦ none | some f ↦ some (node_of f) ]

pub node_at-entry :
    (fs : Fs) (i : ℕ) (f : File)
    → get_elem? fs.files i ≡ some f
    → node_at fs (some i) ≡ some (node_of f)
node_at-entry fs i f e = rw (node_at, e) refl

pub node_at-none : (fs : Fs) (i : ℕ) → get_elem? fs.files i ≡ none → node_at fs (some i) ≡ none
node_at-none fs i e = rw (node_at, e) refl

pub node_at-same :
    (fs fs' : Fs) (i : ℕ)
    → get_elem? fs'.files i ≡ get_elem? fs.files i
    → node_at fs' (some i) ≡ node_at fs (some i)
node_at-same fs fs' i e = rw (node_at, e) refl

-- The walk sees the table through the lookup of names only.
pub resolve_cong :
    (fs fs' : Fs) (i : ℕ) (names : List (List ℕ))
    → ((q : ℕ) (m : List ℕ) → find_child fs' q m ≡ find_child fs q m)
    → resolve fs' i names ≡ resolve fs i names
unfolding resolve
resolve_cong fs fs' i [] same = refl
resolve_cong fs fs' i (m ∷ names) same = elim (Option-cases (find_child fs i m)) [
  | inl e ↦ ground (arith, same i m)
  | inr (j, e) ↦ ground (arith, same i m, resolve_cong fs fs' j names same)
]

-- What stands under a list of names.
unfoldable pub view : Fs → List (List ℕ) → Option Node
view fs names = node_at fs (resolve fs 0 names)

-- The names that components of paths are: texts that are not empty.
pub record IsName (name : List ℕ) : Type 0 where
  pub some_byte : name ≢ []
  pub text : IsText name

-- The text that an array holds.
abbrev pub text_of : List ℕ → List ℕ
text_of [] = []
text_of (c ∷ object) = if c == 0 then [] else c ∷ text_of object

pub text_of-strcmp : (s m : List ℕ) → IsText m → is_zero (strcmp s m) ≡ true → m ≡ text_of s
unfolding strcmp
text_of-strcmp [] [] t h = refl
text_of-strcmp [] (y ∷ m) t h = absurd (ground (arith, t.0))
text_of-strcmp (x ∷ s) [] t h = ground arith
text_of-strcmp (x ∷ s) (y ∷ m) t h = ground (arith, t.0, text_of-strcmp s m t.1)

-- The entry that a lookup of a name finds.
pub record IsChild (fs : Fs) (i : ℕ) (name : List ℕ) (j : ℕ) : Type 0 where
  pub f : File
  pub live : j < fs.file_count
  pub entry : get_elem? fs.files j ≡ some f
  pub parent : f.parent_index ≡ i
  pub named : is_zero (strcmp f.name name) ≡ true

pub find_child-IsChild :
    (fs : Fs) (i : ℕ) (name : List ℕ) {j : ℕ} → find_child fs i name ≡ some j → IsChild fs i name j
unfolding find_child
find_child-IsChild fs i name {j} h =
    let (f, e, p) = find_index_sound (is_named i name) (live fs) h in
    let (l, g) = live_entry fs j f e in
    record { f = f; live = l; entry = g; parent = ground arith; named = ground arith }

-- The names on the way from the root to an entry, in at most so many steps.
unfoldable path_from : ℕ → Fs → ℕ → List (List ℕ)
path_from zero fs j = []
path_from (suc n) fs zero = []
path_from (suc n) fs (suc j) = elim (get_elem? fs.files (suc j)) [
  | none ↦ []
  | some f ↦ path_from n fs f.parent_index ++ (text_of f.name ∷ [])
]

unfoldable pub path_of : Fs → ℕ → List (List ℕ)
unfolding path_from
path_of fs j = path_from j fs j

path_from-entry :
    (n : ℕ) (fs : Fs) (j : ℕ) (f : File)
    → get_elem? fs.files (suc j) ≡ some f
    → path_from (suc n) fs (suc j) ≡ path_from n fs f.parent_index ++ (text_of f.name ∷ [])
unfolding path_from
path_from-entry n fs j f e = ground arith

module _ {fs : Fs} (v : IsTree fs) where
  -- The index of an entry is enough steps.
  path_from_enough :
      (n m j : ℕ) → j ≤ n → j ≤ m → j < fs.file_count → path_from n fs j ≡ path_from m fs j
  unfolding path_from
  path_from_enough zero zero j l k c = refl
  path_from_enough zero (suc m) zero l k c = refl
  path_from_enough zero (suc m) (suc j) l k c = absurd (omega arith)
  path_from_enough (suc n) zero zero l k c = refl
  path_from_enough (suc n) zero (suc j) l k c = absurd (omega arith)
  path_from_enough (suc n) (suc m) zero l k c = refl
  path_from_enough (suc n) (suc m) (suc j) l k c =
      elim (Option-cases (get_elem? fs.files (suc j))) [
        | inl e ↦ ground arith
        | inr (f, e) ↦
            let b = (v.parents (suc j) f c e).1 (omega arith) in
            ground (arith, path_from_enough n m f.parent_index)
      ]

  child_below : (i : ℕ) (name : List ℕ) (j : ℕ) → IsName name → IsChild fs i name j → i < j
  child_below i name zero h c = absurd (
      h.some_byte (text_of-strcmp c.f.name name h.text c.named ∙ ap text_of (v.root c.f c.entry).1))
  child_below i name (suc j) h c =
      omega (arith, (v.parents (suc j) c.f c.live c.entry).1 (omega arith), c.parent)

  path_of-child :
      (i : ℕ) (name : List ℕ) (j : ℕ)
      → IsName name
      → IsChild fs i name j
      → path_of fs j ≡ path_of fs i ++ (name ∷ [])
  unfolding path_of
  path_of-child i name zero h c = absurd (omega (arith, child_below i name zero h c))
  path_of-child i name (suc j) h c =
      let below = child_below i name (suc j) h c in
      let same : path_from j fs c.f.parent_index ≡ path_from i fs i =
        rw c.parent (path_from_enough j i i (omega arith) (omega arith) (omega (arith, c.live))) in
      let last = text_of-strcmp c.f.name name h.text c.named in
      path_from-entry j fs j c.f c.entry
      ∙ ap (λ p. p ++ (text_of c.f.name ∷ [])) same
      ∙ ap (λ m. path_from i fs i ++ (m ∷ [])) (sym last)

  path_of-resolve :
      (i : ℕ) (names : List (List ℕ)) (j : ℕ)
      → All IsName names
      → resolve fs i names ≡ some j
      → path_of fs j ≡ path_of fs i ++ names
  unfolding resolve
  path_of-resolve i [] j h e =
      let same : i ≡ j = ground arith in
      ap (path_of fs) (sym same) ∙ sym (append-nil (path_of fs i))
  path_of-resolve i (name ∷ names) j h e = elim (Option-cases (find_child fs i name)) [
    | inl n ↦ absurd (ground arith)
    | inr (k, s) ↦
        let rest : resolve fs k names ≡ some j = ground arith in
        path_of-resolve k names j h.1 rest
        ∙ ap (λ p. p ++ names) (path_of-child i name k h.0 (find_child-IsChild fs i name s))
        ∙ append_assoc (path_of fs i) (name ∷ []) names
  ]

  -- Two lists of names that lead to the same entry are the same.
  pub same_path :
      (p q : List (List ℕ)) (i : ℕ)
      → All IsName p
      → All IsName q
      → resolve fs 0 p ≡ some i
      → resolve fs 0 q ≡ some i
      → p ≡ q
  unfolding path_of path_from
  same_path p q i h k e f = sym (path_of-resolve 0 p i h e) ∙ path_of-resolve 0 q i k f
