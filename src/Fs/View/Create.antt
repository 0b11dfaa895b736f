-- ===== src/Fs/View/Create.antt =====
-- `fs_mkdir` and `fs_create` on the files as their users see them.
use native.Mathlib.Decide.{ℕ_discrete}
use fox_os.Base.{
  ℕ, ◌<◌, ◌≡◌, ◌≢◌, refl, sym, ap, ◌∙◌, Bool, true, false, ◌&&◌, List, [], ◌∷◌, ◌++◌, Option, none,
  some, Run, ret, arith, get_elem?, All, Option-cases, Bool-cases, inl, inr, some-get_elem?, ltb,
  ne→==, if◌then◌else◌, ◌==◌,
}
use fox_os.Fs.{
  max_files, FileType, file_type_none, file_type_file, file_type_dir, File, Fs, find_child, dir_at,
}
use fox_os.Fs.Lookup.Append.{resolve-append}
use fox_os.Fs.Lookup.Resolve.{resolve}
use fox_os.Fs.Table.Create.{Created, made}
use fox_os.Fs.Table.Inv.{IsTree, old_entry, new_entry, parent-lt}
use fox_os.Fs.View.{
  Node, untyped, directory, regular, node_of, node_at, node_at-entry, node_at-same, view, IsName,
  find_child-IsChild, same_path,
}
use fox_os.Fs.View.Update.{IsUpdate}
use fox_os.Text.{strcmp, is_zero}

-- What stands where an entry has been created.
abbrev pub new_node : FileType → Node
new_node file_type_none = untyped
new_node file_type_file = regular []
new_node file_type_dir = directory

made-new_node :
    (name : List ℕ) (type : FileType) (parent : ℕ) (g : File)
    → node_of (made name type parent g) ≡ new_node type
made-new_node name file_type_none parent g = refl
made-new_node name file_type_file parent g = refl
made-new_node name file_type_dir parent g = refl

All-snoc :
    (ps : List (List ℕ)) (p : List ℕ) → All IsName ps → IsName p → All IsName (ps ++ (p ∷ []))
All-snoc [] p h k = (k, tt)
All-snoc (q ∷ ps) p h k = (h.0, All-snoc ps p h.1 k)

module _ {fs fs' : Fs} {name : List ℕ} {type : FileType} {parent index : ℕ} (v : IsTree fs)
    (w : IsTree fs') (c : Created fs name type parent index fs')
    (kept : (q : ℕ) (m : List ℕ)
      → find_child fs' q m ≡ elim (find_child fs q m) [
        | some i ↦ some i
        | none ↦ if (parent == q) && is_zero (strcmp name m) then some index else none
      ])
    (below : parent < fs.file_count) where
  -- The new entry has no entries.
  new_empty : (m : List ℕ) → find_child fs' index m ≡ none
  new_empty m = elim (Option-cases (find_child fs index m)) [
    | inl e ↦ ground (arith, kept index m, ne→== parent index (λ z. omega (arith, c.at_end)))
    | inr (j, e) ↦
        let d = find_child-IsChild fs index m e in
        absurd (omega (arith, parent-lt v j d.f d.live d.entry, d.parent, c.at_end))
  ]

  grown : (q : ℕ) (m : List ℕ) (j : ℕ) → find_child fs q m ≡ some j → find_child fs' q m ≡ some j
  grown q m j e = ground (arith, kept q m)

  resolve-grown :
      (i : ℕ) (names : List (List ℕ)) (j : ℕ)
      → resolve fs i names ≡ some j
      → resolve fs' i names ≡ some j
  unfolding resolve
  resolve-grown i [] j e = e
  resolve-grown i (m ∷ names) j e = elim (Option-cases (find_child fs i m)) [
    | inl n ↦ absurd (ground arith)
    | inr (k, s) ↦
        let rest : resolve fs k names ≡ some j = ground arith in
        ground (arith, grown i m k s, resolve-grown k names j rest)
  ]

  new_leads : (names : List (List ℕ)) (j : ℕ) → resolve fs' index names ≡ some j → j ≡ index
  unfolding resolve
  new_leads [] j e = ground arith
  new_leads (m ∷ names) j e = absurd (ground (arith, new_empty m))

  -- What is reached in the new table, other than the new entry, was reached in the old one.
  resolve-old :
      (i : ℕ) (names : List (List ℕ)) (j : ℕ)
      → resolve fs' i names ≡ some j
      → j ≢ index
      → resolve fs i names ≡ some j
  unfolding resolve
  resolve-old i [] j e n = e
  resolve-old i (m ∷ names) j e n = elim (Option-cases (find_child fs i m)) [
    | inr (k, s) ↦
        let rest : resolve fs' k names ≡ some j = ground (arith, grown i m k s) in
        ground (arith, resolve-old k names j rest n)
    | inl a ↦ elim (Bool-cases ((parent == i) && is_zero (strcmp name m))) [
      | inl b ↦
          let rest : resolve fs' index names ≡ some j = ground (arith, kept i m) in
          absurd (n (new_leads names j rest))
      | inr b ↦ absurd (ground (arith, kept i m))
    ]
  ]

  module _ (p : List (List ℕ)) (names : All IsName p) (is_name : IsName name)
      (at : resolve fs 0 p ≡ some parent) (found : find_child fs' parent name ≡ some index) where
    pub reached : resolve fs' 0 (p ++ (name ∷ [])) ≡ some index
    reached = resolve-append fs fs' 0 p name grown at found

    target : All IsName (p ++ (name ∷ []))
    target = All-snoc p name names is_name

    pub create-IsUpdate : IsUpdate (view fs) (view fs') (p ++ (name ∷ [])) (some (new_node type))
    unfolding view
    create-IsUpdate = record {
      here =
          let (f, e) =
            some-get_elem? fs'.files fs.file_count (omega (arith, w.table.cells, c.room)) in
          let (g, _, m) = new_entry v c f e in
          ap (node_at fs') (reached ∙ ap some c.at_end)
          ∙ node_at-entry fs' fs.file_count f e
          ∙ ap some (ap node_of m ∙ made-new_node name type parent g);
      elsewhere = λ q all ne. elim (Option-cases (resolve fs' 0 q)) [
        | inl m ↦ elim (Option-cases (resolve fs 0 q)) [
          | inl o ↦ ap (node_at fs') m ∙ sym (ap (node_at fs) o)
          | inr (j, o) ↦ absurd (cc (sym m ∙ resolve-grown 0 q j o))
        ]
        | inr (j, m) ↦ elim (ℕ_discrete j index) [
          | yes z ↦ absurd (ne (same_path w q _ index all target (m ∙ ap some z) reached))
          | no z ↦
              ap (node_at fs') m
              ∙ node_at-same fs fs' j (old_entry v c j (λ y. z (y ∙ sym c.at_end)))
              ∙ sym (ap (node_at fs) (resolve-old 0 q j m z))
        ]
      ];
    }

pub resolve_absent :
    (fs : Fs) (i : ℕ) (p : List (List ℕ)) (m : List ℕ) {j : ℕ}
    → resolve fs i p ≡ some j
    → find_child fs j m ≡ none
    → resolve fs i (p ++ (m ∷ [])) ≡ none
unfolding resolve
resolve_absent fs i [] m {j} e n = ground arith
resolve_absent fs i (q ∷ p) m {j} e n = elim (Option-cases (find_child fs i q)) [
  | inl a ↦ ground arith
  | inr (k, s) ↦
      let rest : resolve fs k p ≡ some j = ground arith in
      ground (arith, resolve_absent fs k p m rest n)
]

-- Whether an entry may be created: there is room in the table, a directory to put it in, a name,
-- and nothing of that name.
abbrev pub is_directory : Option Node → Bool
is_directory none = false
is_directory (some untyped) = false
is_directory (some directory) = true
is_directory (some (regular text)) = false

abbrev pub is_nothing : Option Node → Bool
is_nothing none = true
is_nothing (some node) = false

abbrev pub is_given : List ℕ → Bool
is_given [] = false
is_given (c ∷ name) = true

unfoldable pub may_create : Fs → List (List ℕ) → List ℕ → Bool
may_create fs p name =
    ltb fs.file_count max_files
    && (is_directory (view fs p) && (is_given name && is_nothing (view fs (p ++ (name ∷ [])))))

-- What a creation promises: a new entry, whose index is the result, and nothing else changed, if it
-- may be created; else -1, and nothing changed.
abbrev pub Creates : Fs → FileType → List (List ℕ) → List ℕ → Bool → Run (Option ℕ × Fs) → Type 0
Creates fs type p name true r =
    (index : ℕ) × (fs' : Fs) × (r ≡ ret (some index, fs'))
    × IsTree fs'
    × (resolve fs' 0 (p ++ (name ∷ [])) ≡ some index)
    × IsUpdate (view fs) (view fs') (p ++ (name ∷ [])) (some (new_node type))
Creates fs type p name false r = r ≡ ret (none, fs)

pub is_directory-dir_at :
    (fs : Fs) (i : ℕ) (f : File) (t : FileType)
    → get_elem? fs.files i ≡ some f
    → f.type ≡ t
    → is_directory (some (node_of f)) ≡ dir_at fs.files i
is_directory-dir_at fs i f file_type_none e t = rw (dir_at, e, t) refl
is_directory-dir_at fs i f file_type_file e t = rw (dir_at, e, t) refl
is_directory-dir_at fs i f file_type_dir e t = rw (dir_at, e, t) refl
