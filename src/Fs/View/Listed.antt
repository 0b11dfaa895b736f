-- ===== src/Fs/View/Listed.antt =====
-- `fs_list_dir` on the files as their users see them.
use fox_os.Base.{
  ℕ, zero, suc, ◌+◌, ◌*◌, ◌^◌, ◌<◌, ◌≤◌, ◌≡◌, refl, sym, ap, ap₂, ◌∙◌, Bool, true, false, List, [],
  ◌∷◌, ◌++◌, Option, none, some, Run, ret, length, drop, arith, get_elem?, All, All-at,
  Option-cases, Bool-cases, inl, inr, some-get_elem?, leb, get_elem?-take,
}
use fox_os.Fs.{max_files, File, Fs, live, find_child, dir_at}
use fox_os.Fs.Listing.{list_at, fs_list_dir}
use fox_os.Fs.Listing.Complete.{list_dir_complete}
use fox_os.Fs.Lookup.Append.{resolve-append}
use fox_os.Fs.Lookup.Resolve.{components, resolve, IsShort, parse_path_resolves}
use fox_os.Fs.Sound.{resolve-lt}
use fox_os.Fs.Table.Inv.{IsTree, live_entry}
use fox_os.Fs.View.{
  Node, node_of, node_at, node_at-entry, view, IsName, find_child-IsChild, text_of-strcmp,
}
use fox_os.Fs.View.Create.{is_directory, is_directory-dir_at, resolve_absent}
use fox_os.Fs.View.Lines.{
  lines, IsListing, listed, lines-listed, length-listed, listed_from, listed_at, listed-IsDistinct,
  behind_first,
}
use fox_os.Fs.View.Moved.{found_child}
use fox_os.Text.{IsText, strcmp, is_zero}
use fox_os.Text.Compare.{strcmp_self, strcmp_sound}

-- The names of the entries are texts.
abbrev pub HasTexts : Fs → Type 0
HasTexts fs = All (λ f. IsText f.name) (live fs)

-- What a listing promises: a line for each name that stands in a directory; -1 for anything else.
abbrev pub Lists : Fs → List (List ℕ) → Bool → Run (Option ℕ × List ℕ) → Type 0
Lists fs p true r =
    (ns : List (List ℕ × Node)) × (r ≡ ret (some (length ns), lines ns)) × IsListing fs p ns
Lists fs p false r = r ≡ ret (none, [])

module _ (fs : Fs) (v : IsTree fs) (texts : HasTexts fs) (p : List (List ℕ)) (d : ℕ)
    (at : resolve fs 0 p ≡ some d) where
  entries : List File
  entries = drop 1 (live fs)

  child_view :
      (j : ℕ) (f : File)
      → get_elem? (live fs) j ≡ some f
      → f.parent_index ≡ d
      → view fs (p ++ (f.name ∷ [])) ≡ some (node_of f)
  unfolding view
  child_view j f e q =
      let found = found_child v d f.name j f e q (strcmp_self f.name) in
      let (l, s) = live_entry fs j f e in
      ap (node_at fs) (resolve-append fs fs 0 p f.name (λ a m b z. z) at found)
      ∙ node_at-entry fs j f s

  viewed_child :
      (m : List ℕ) (n : Node)
      → IsName m
      → view fs (p ++ (m ∷ [])) ≡ some n
      → (j : ℕ) × (f : File) × (get_elem? (live fs) (suc j) ≡ some f)
        × (f.parent_index ≡ d)
        × (m ≡ f.name)
        × (n ≡ node_of f)
  unfolding view
  viewed_child m n is_name h = elim (Option-cases (find_child fs d m)) [
    | inl a ↦ absurd (cc (sym h ∙ ap (node_at fs) (resolve_absent fs 0 p m at a)))
    | inr (j, s) ↦
        let c = find_child-IsChild fs d m s in
        let there =
          ap (node_at fs) (resolve-append fs fs 0 p m (λ a b l z. z) at s)
          ∙ node_at-entry fs j c.f c.entry in
        let node : n ≡ node_of c.f = cc (sym h ∙ there) in
        by_index j c.f c.parent c.live c.entry c.named node
  ]
    where
      by_index :
          (j : ℕ) (f : File)
          → f.parent_index ≡ d
          → j < fs.file_count
          → get_elem? fs.files j ≡ some f
          → is_zero (strcmp f.name m) ≡ true
          → n ≡ node_of f
          → (j : ℕ) × (f : File) × (get_elem? (live fs) (suc j) ≡ some f)
            × (f.parent_index ≡ d)
            × (m ≡ f.name)
            × (n ≡ node_of f)
      by_index zero f q l e z node =
          absurd (is_name.some_byte (text_of-strcmp [] m is_name.text (rw (v.root f e).1 at z)))
      by_index (suc j) f q l e z node =
          let at_live = get_elem?-take fs.file_count fs.files (suc j) l ∙ e in
          (
            j,
            f,
            at_live,
            q,
            sym (
                strcmp_sound f.name m (All-at (λ g. IsText g.name) (live fs) (suc j) texts at_live)
                  is_name.text z),
            node,
          )

  listed-IsListing : IsListing fs p (listed d entries)
  unfolding entries
  listed-IsListing = record {
    sound = λ i m n e.
        let (j, s) = listed_from d entries i m n e in
        ap (λ x. view fs (p ++ (x ∷ []))) s.name
        ∙ child_view (suc j) s.f (sym (behind_first (live fs) j) ∙ s.entry) s.parent
        ∙ ap some (sym s.node);
    complete = λ m n is_name h.
        let (j, f, s, q, z, w) = viewed_child m n is_name h in
        let (i, t) = listed_at d entries j f (behind_first (live fs) j ∙ s) q in
        (i, t ∙ ap some (ap₂ (λ x y. (x, y)) (sym z) (sym w)));
    distinct = listed-IsDistinct d entries (λ i j f g e e' q q' z.
        let (l, s) = live_entry fs (suc i) f (sym (behind_first (live fs) i) ∙ e) in
        let (l', s') = live_entry fs (suc j) g (sym (behind_first (live fs) j) ∙ e') in
        omega (
          arith,
          v.unique (suc i) (suc j) f g l l' s s' (q ∙ sym q')
              (ap (λ x. is_zero (strcmp f.name x)) (sym z) ∙ strcmp_self f.name),
        ));
  }

  directory-Lists :
      (b : ℕ)
      → dir_at fs.files d ≡ true
      → 257 * 255 + 2 ≤ b
      → b < 2 ^ 32
      → Lists fs p true (list_at fs (some d) b)
  unfolding entries
  directory-Lists b h l r = (
    listed d entries,
    list_dir_complete fs d b v h (omega (arith, v.fits, resolve-lt fs 0 p v.not_empty at)) l r
        ∙ rw (lines-listed d entries, length-listed d entries) refl,
    listed-IsListing,
  )

no_directory :
    (fs : Fs) (d b : ℕ) → dir_at fs.files d ≡ false → list_at fs (some d) b ≡ ret (none, [])
unfolding list_at
no_directory fs d b h = elim (Bool-cases (leb max_files d)) [
  | inl e ↦ rw e refl
  | inr e ↦ rw (e, h) refl
]

resolved-Lists :
    (fs : Fs) (p : List (List ℕ)) (b : ℕ) (r : Option ℕ)
    → IsTree fs
    → HasTexts fs
    → resolve fs 0 p ≡ r
    → 257 * 255 + 2 ≤ b
    → b < 2 ^ 32
    → Lists fs p (is_directory (view fs p)) (list_at fs r b)
unfolding view
resolved-Lists fs p b none v t e l q = unfold list_at in rw e refl
resolved-Lists fs p b (some d) v t e l q =
    let (f, s) =
      some-get_elem? fs.files d
        (omega (arith, v.table.cells, v.fits, resolve-lt fs 0 p v.not_empty e)) in
    let same : is_directory (view fs p) ≡ dir_at fs.files d =
      ap (λ r. is_directory (node_at fs r)) e
      ∙ ap is_directory (node_at-entry fs d f s)
      ∙ is_directory-dir_at fs d f f.type s refl in
    elim (Bool-cases (dir_at fs.files d)) [
      | inl h ↦ rw (same, h) (directory-Lists fs v t p d e b h l q)
      | inr h ↦ rw (same, h) (no_directory fs d b h)
    ]

-- `fs_list_dir` of any path, with a buffer of at least 65537 bytes. Of a directory, the text has a
-- line for each name that stands there, with a slash behind the name of a directory: each line is
-- of something that stands there, no name has two lines, and the result is the number of lines.
-- Where anything else or nothing stands, -1 is returned and nothing is written. The table is a
-- tree, the names in it are texts, and the components of the path are shorter than 256 bytes.
pub list_refines :
    (fs : Fs) (path : List ℕ) (b : ℕ)
    → IsTree fs
    → HasTexts fs
    → All IsShort (components path)
    → 257 * 255 + 2 ≤ b
    → b < 2 ^ 32
    → Lists fs (components path) (is_directory (view fs (components path))) (fs_list_dir fs path b)
unfolding fs_list_dir
list_refines fs path b v t s l q =
    rw (parse_path_resolves fs path s)
      (resolved-Lists fs (components path) b (resolve fs 0 (components path)) v t refl l q)
