-- ===== src/Fs/View/Lines.antt =====
-- The lines of a listing, and the entries they come from.
use fox_os.Base.{
  ℕ, zero, suc, ◌≡◌, ◌≢◌, refl, sym, ap, ◌∙◌, List, [], ◌∷◌, ◌++◌, some, length, drop, arith,
  get_elem?, Bool-cases, inl, inr, ◌==◌, if◌then◌else◌, ==→eq, eq→==,
}
use fox_os.Fs.{FileType, file_type_none, file_type_file, file_type_dir, File, Fs}
use fox_os.Fs.Listing.{entry_line}
use fox_os.Fs.Listing.Complete.{listing, count_in}
use fox_os.Fs.View.{Node, untyped, directory, regular, node_of, view, IsName}

-- A line of the listing: a slash goes behind a directory.
abbrev pub node_line : List ℕ × Node → List ℕ
node_line (name, untyped) = name ++ (b'\n' ∷ [])
node_line (name, directory) = name ++ (b'/' ∷ b'\n' ∷ [])
node_line (name, regular text) = name ++ (b'\n' ∷ [])

abbrev pub lines : List (List ℕ × Node) → List ℕ
lines [] = []
lines (n ∷ ns) = node_line n ++ lines ns

-- No two lines have the same name.
abbrev pub IsDistinct : List (List ℕ × Node) → Type 0
IsDistinct [] = Unit
IsDistinct (n ∷ ns) =
    ((i : ℕ) (m : List ℕ × Node) → get_elem? ns i ≡ some m → n.0 ≢ m.0) × IsDistinct ns

-- The names and nodes that stand under a list of names, each once.
pub record IsListing (fs : Fs) (p : List (List ℕ)) (ns : List (List ℕ × Node)) : Type 0 where
  pub sound :
      (i : ℕ) (m : List ℕ) (n : Node)
      → get_elem? ns i ≡ some (m, n)
      → view fs (p ++ (m ∷ [])) ≡ some n
  pub complete :
      (m : List ℕ) (n : Node)
      → IsName m
      → view fs (p ++ (m ∷ [])) ≡ some n
      → (i : ℕ) × (get_elem? ns i ≡ some (m, n))
  pub distinct : IsDistinct ns

-- The entries of a directory among those given.
unfoldable pub listed : ℕ → List File → List (List ℕ × Node)
listed d [] = []
listed d (f ∷ files) =
    if f.parent_index == d then (f.name, node_of f) ∷ listed d files else listed d files

entry_node_line :
    (f : File) (t : FileType) → f.type ≡ t → node_line (f.name, node_of f) ≡ entry_line f
unfolding entry_line
entry_node_line f file_type_none e = rw e refl
entry_node_line f file_type_file e = rw e refl
entry_node_line f file_type_dir e = rw e refl

pub lines-listed : (d : ℕ) (files : List File) → lines (listed d files) ≡ listing d files
unfolding listed listing
lines-listed d [] = refl
lines-listed d (f ∷ files) = elim (Bool-cases (f.parent_index == d)) [
  | inl e ↦ rw (e, entry_node_line f f.type refl, lines-listed d files) refl
  | inr e ↦ rw e (lines-listed d files)
]

pub length-listed : (d : ℕ) (files : List File) → length (listed d files) ≡ count_in d files
unfolding listed count_in
length-listed d [] = refl
length-listed d (f ∷ files) = ground (arith, length-listed d files)

-- An entry of the directory, with its name and its node.
pub record IsSource (d : ℕ) (files : List File) (m : List ℕ) (n : Node) (j : ℕ) : Type 0 where
  pub f : File
  pub entry : get_elem? files j ≡ some f
  pub parent : f.parent_index ≡ d
  pub name : m ≡ f.name
  pub node : n ≡ node_of f

next-IsSource :
    {d : ℕ} {files : List File} {m : List ℕ} {n : Node} (f : File)
    → (j : ℕ) × IsSource d files m n j
    → (j : ℕ) × IsSource d (f ∷ files) m n j
next-IsSource f (j, s) =
    (suc j, record { f = s.f; entry = s.entry; parent = s.parent; name = s.name; node = s.node })

-- A line comes from an entry.
pub listed_from :
    (d : ℕ) (files : List File) (i : ℕ) (m : List ℕ) (n : Node)
    → get_elem? (listed d files) i ≡ some (m, n)
    → (j : ℕ) × IsSource d files m n j
unfolding listed
listed_from d [] i m n h = absurd (cc h)
listed_from d (f ∷ files) zero m n h = elim (Bool-cases (f.parent_index == d)) [
  | inr e ↦ next-IsSource f (listed_from d files zero m n (rw e at h))
  | inl e ↦
      let z : ◌≡◌ {A = List ℕ × Node} (f.name, node_of f) (m, n) = cc (rw e at h) in
      (
        0,
        record {
          f = f;
          entry = refl;
          parent = ==→eq f.parent_index d e;
          name = ap (λ x. x.0) (sym z);
          node = ap (λ x. x.1) (sym z);
        },
      )
]
listed_from d (f ∷ files) (suc i) m n h = elim (Bool-cases (f.parent_index == d)) [
  | inr e ↦ next-IsSource f (listed_from d files (suc i) m n (rw e at h))
  | inl e ↦ next-IsSource f (listed_from d files i m n (rw e at h))
]

pub listed_at :
    (d : ℕ) (files : List File) (j : ℕ) (f : File)
    → get_elem? files j ≡ some f
    → f.parent_index ≡ d
    → (i : ℕ) × (get_elem? (listed d files) i ≡ some (f.name, node_of f))
unfolding listed
listed_at d [] j f e p = absurd (cc e)
listed_at d (x ∷ files) zero f e p =
    let z : x ≡ f = cc e in (0, rw (z, eq→== f.parent_index d p) refl)
listed_at d (x ∷ files) (suc j) f e p =
    let (i, s) = listed_at d files j f e p in
    elim (Bool-cases (x.parent_index == d)) [ inl b ↦ (suc i, rw b s) | inr b ↦ (i, rw b s) ]

pub listed-IsDistinct :
    (d : ℕ) (files : List File)
    → ((i j : ℕ) (f g : File)
        → get_elem? files i ≡ some f
        → get_elem? files j ≡ some g
        → f.parent_index ≡ d
        → g.parent_index ≡ d
        → f.name ≡ g.name
        → i ≡ j)
    → IsDistinct (listed d files)
unfolding listed
listed-IsDistinct d [] u = tt
listed-IsDistinct d (f ∷ files) u =
    let rest =
      listed-IsDistinct d files
        (λ i j g h e e' p p' z. omega (arith, u (suc i) (suc j) g h e e' p p' z)) in
    elim (Bool-cases (f.parent_index == d)) [
      | inr b ↦ rw b rest
      | inl b ↦ rw b (
        λ i m e z.
            let (j, s) = listed_from d files i m.0 m.1 e in
            omega (
              arith,
              u 0 (suc j) f s.f refl s.entry (==→eq f.parent_index d b) s.parent (z ∙ s.name),
            ),
        rest,
      )
    ]

pub behind_first : (xs : List File) (j : ℕ) → get_elem? (drop 1 xs) j ≡ get_elem? xs (suc j)
behind_first [] j = refl
behind_first (x ∷ xs) j = refl
