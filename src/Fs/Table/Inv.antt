-- ===== src/Fs/Table/Inv.antt =====
-- The invariant of the table of files, for `fs_init` and `fs_create_file`.
use native.Mathlib.Decide.{ℕ_discrete}
use fox_os.Base.{
  ℕ, zero, suc, ◌<◌, ◌≤◌, ◌≡◌, ◌≢◌, refl, sym, ap, ◌∙◌, true, List, [], ◌∷◌, map, some, ret, length,
  get_elem?, arith, modify, length-modify, length-map, get_elem?-modify_self, get_elem?-modify_ne,
  some-get_elem?, length-take, get_elem?-take, get_elem?-lt, find_index-none,
}
use fox_os.Fs.{
  max_files, max_filename, max_file_size, FileType, File, Fs, live, dir_at, is_named, find_child,
}
use fox_os.Fs.Table.{fs_init, fs_create_file, clear, make_root}
use fox_os.Fs.Table.Create.{Created, made, create_file-Created}
use fox_os.Text.{strcmp, is_zero}
use fox_os.Text.Compare.{strcmp_symm}

-- The static array: its size, and that of the `data` of each entry.
pub record IsTable (files : List File) : Type 0 where
  pub cells : length files ≡ max_files
  pub contents : (i : ℕ) (f : File) → get_elem? files i ≡ some f → length f.content ≡ max_file_size

-- The entries below `file_count` form a tree of directories: each but the root, which is its own
-- parent, stands in a directory before it, and no two entries of a directory share a name.
pub record IsTree (fs : Fs) : Type 0 where
  pub table : IsTable fs.files
  pub not_empty : 0 < fs.file_count
  pub fits : fs.file_count ≤ max_files
  pub root : (f : File) → get_elem? fs.files 0 ≡ some f → (f.parent_index ≡ 0) × (f.name ≡ [])
  pub parents :
      (i : ℕ) (f : File)
      → i < fs.file_count
      → get_elem? fs.files i ≡ some f
      → (dir_at fs.files f.parent_index ≡ true)
        × (0 < i → f.parent_index < i)
        × (length f.name < max_filename)
        × (f.size ≤ max_file_size)
  pub unique :
      (i j : ℕ) (f g : File)
      → i < fs.file_count
      → j < fs.file_count
      → get_elem? fs.files i ≡ some f
      → get_elem? fs.files j ≡ some g
      → f.parent_index ≡ g.parent_index
      → is_zero (strcmp f.name g.name) ≡ true
      → i ≡ j

-- An element of the list of the entries in use is an entry in use.
pub live_entry :
    (fs : Fs) (i : ℕ) (f : File)
    → get_elem? (live fs) i ≡ some f
    → (i < fs.file_count) × (get_elem? fs.files i ≡ some f)
live_entry fs i f e =
    let l : i < fs.file_count =
      omega (arith, get_elem?-lt (live fs) i e, length-take fs.file_count fs.files) in
    (l, sym (get_elem?-take fs.file_count fs.files i l) ∙ e)

-- The parent of an entry is an entry.
pub parent-lt :
    {fs : Fs} (v : IsTree fs) (i : ℕ) (f : File)
    → i < fs.file_count
    → get_elem? fs.files i ≡ some f
    → f.parent_index < fs.file_count
parent-lt v zero f l h = omega (arith, (v.root f h).0)
parent-lt v (suc i) f l h = omega (arith, (v.parents (suc i) f l h).1 (omega arith))

module _ {fs fs' : Fs} {name : List ℕ} {type : FileType} {parent index : ℕ} (v : IsTree fs)
    (c : Created fs name type parent index fs') where
  -- The entries of the new table are the old ones and the one that has been made.
  pub old_entry : (i : ℕ) → i ≢ fs.file_count → get_elem? fs'.files i ≡ get_elem? fs.files i
  old_entry i n = rw c.cells (get_elem?-modify_ne fs.files fs.file_count i _ (λ e. n (sym e)))

  pub new_entry :
      (f : File)
      → get_elem? fs'.files fs.file_count ≡ some f
      → (g : File) × (get_elem? fs.files fs.file_count ≡ some g) × (f ≡ made name type parent g)
  new_entry f h =
      let (g, e) = some-get_elem? fs.files fs.file_count (omega (arith, v.table.cells, c.room)) in
      (g, e, cc (get_elem?-modify_self fs.files fs.file_count (made name type parent) e, c.cells))

  -- A directory that could be seen is still one.
  dir_at-Created :
      (q : ℕ) → q < fs.file_count → dir_at fs.files q ≡ true → dir_at fs'.files q ≡ true
  dir_at-Created q l d = rw (old_entry q (λ e. omega arith), dir_at) d

  IsTable-Created : IsTable fs'.files
  IsTable-Created = record {
    cells = rw c.cells (length-modify fs.files fs.file_count _ ∙ v.table.cells);
    contents = λ i f h. elim (ℕ_discrete i fs.file_count) [
      | yes e ↦
          let (g, e', m) = new_entry f (rw e at h) in rw m (v.table.contents fs.file_count g e')
      | no n ↦ v.table.contents i f (rw (old_entry i n) at h)
    ];
  }

  -- The parent is an entry, and no entry of it has the name.
  module _ (below : parent < fs.file_count) where
    parents-Created :
        (i : ℕ) (f : File)
        → i < fs'.file_count
        → get_elem? fs'.files i ≡ some f
        → (dir_at fs'.files f.parent_index ≡ true)
          × (0 < i → f.parent_index < i)
          × (length f.name < max_filename)
          × (f.size ≤ max_file_size)
    parents-Created i f l h = elim (ℕ_discrete i fs.file_count) [
      | yes e ↦
          let (g, e', m) = new_entry f (rw e at h) in
          rw (m, e) (dir_at-Created parent below c.directory, λ _. below, c.short, omega arith)
      | no n ↦
          let old = v.parents i f (omega (arith, c.count)) (rw (old_entry i n) at h) in
          (
            dir_at-Created f.parent_index
                (parent-lt v i f (omega (arith, c.count)) (rw (old_entry i n) at h)) old.0,
            old.1,
            old.2,
            old.3,
          )
    ]

  -- The name of the new entry is not that of another entry of the directory.
  new_name :
      (i : ℕ) (f : File)
      → i < fs.file_count
      → get_elem? fs.files i ≡ some f
      → f.parent_index ≡ parent
      → is_zero (strcmp f.name name) ≡ true
      → ⊥
  unfolding find_child
  new_name i f l h p s = ground (
    arith,
    find_index-none (is_named parent name) (live fs) i {x = f} c.absent,
    get_elem?-take fs.file_count fs.files i,
  )

  unique-Created :
      (i j : ℕ) (f g : File)
      → i < fs'.file_count
      → j < fs'.file_count
      → get_elem? fs'.files i ≡ some f
      → get_elem? fs'.files j ≡ some g
      → f.parent_index ≡ g.parent_index
      → is_zero (strcmp f.name g.name) ≡ true
      → i ≡ j
  unique-Created i j f g l k h h' p s = elim (ℕ_discrete i fs.file_count) [
    | yes e ↦ elim (ℕ_discrete j fs.file_count) [
      | yes e' ↦ omega arith
      | no n' ↦
          let (m, _, d) = new_entry f (rw e at h) in
          absurd (
            new_name j g (omega (arith, c.count)) (rw (old_entry j n') at h')
              (sym p ∙ ap File.parent_index d) (strcmp_symm _ _ (rw d at s)))
    ]
    | no n ↦ elim (ℕ_discrete j fs.file_count) [
      | yes e' ↦
          let (m, _, d) = new_entry g (rw e' at h') in
          absurd (
            new_name i f (omega (arith, c.count)) (rw (old_entry i n) at h)
              (p ∙ ap File.parent_index d) (rw d at s))
      | no n' ↦
          v.unique i j f g (omega (arith, c.count)) (omega (arith, c.count))
            (rw (old_entry i n) at h) (rw (old_entry j n') at h') p s
    ]
  ]

-- `fs_create_file` with a parent among the entries in use keeps the table a tree of directories:
-- each entry but the root stands in a directory before it, no two entries of a directory share a
-- name, the names and the sizes fit, and the count stays within the array.
pub create_file-IsTree :
    (fs : Fs) (name : List ℕ) (type : FileType) (parent : ℕ) {index : ℕ} {fs' : Fs}
    → IsTree fs
    → parent < fs.file_count
    → fs_create_file fs name type parent ≡ ret (some index, fs')
    → IsTree fs'
create_file-IsTree fs name type parent {index} {fs'} v below h =
    let c = create_file-Created fs name type parent h in
    record {
      table = IsTable-Created v c;
      not_empty = omega (arith, c.count);
      fits = omega (arith, c.count, c.room);
      root = λ f e. v.root f (rw (old_entry v c 0 (λ z. omega (arith, v.not_empty))) at e);
      parents = parents-Created v c below;
      unique = unique-Created v c;
    }

get_elem?-clear :
    (files : List File) (i : ℕ) {f : File}
    → get_elem? (map clear files) i ≡ some f
    → (g : File) × (get_elem? files i ≡ some g) × (f ≡ clear g)
get_elem?-clear [] i h = absurd (cc h)
get_elem?-clear (g ∷ files) zero {f} h = (g, refl, ground arith)
get_elem?-clear (g ∷ files) (suc i) h = get_elem?-clear files i h

-- Every cell keeps its content, and the first is the root.
init_cell :
    (files : List File) (i : ℕ) (f : File)
    → get_elem? (modify (map clear files) 0 make_root) i ≡ some f
    → (g : File) × (get_elem? files i ≡ some g)
      × (f.content ≡ g.content)
      × (i ≡ 0 → f ≡ make_root g)
init_cell [] i f h = absurd (cc h)
init_cell (g ∷ files) zero f h = (g, refl, ground arith, λ _. ground arith)
init_cell (g ∷ files) (suc i) f h =
    let (g', e, c) = get_elem?-clear files i h in
    (g', e, ap File.content c, λ z. absurd (omega arith))

init_root :
    (files : List File) → 0 < length files → dir_at (modify (map clear files) 0 make_root) 0 ≡ true
init_root [] h = absurd (omega arith)
init_root (f ∷ files) h = refl

-- `fs_init` of the static array, whatever its entries are, gives a table that satisfies the
-- invariant and in which only the root is in use.
pub init-IsTree : (fs : Fs) → IsTable fs.files → IsTree (fs_init fs) × ((fs_init fs).file_count ≡ 1)
unfolding fs_init
init-IsTree fs t = (
  record {
    table = record {
      cells = length-modify (map clear fs.files) 0 make_root ∙ length-map clear fs.files ∙ t.cells;
      contents =
          λ i f h. let (g, e, c, _) = init_cell fs.files i f h in ap length c ∙ t.contents i g e;
    };
    not_empty = omega arith;
    fits = omega arith;
    root = λ f h.
        let (g, e, c, r) = init_cell fs.files 0 f h in
        (ap File.parent_index (r refl), ap File.name (r refl));
    parents = λ i f l h.
        let (g, e, c, r) = init_cell fs.files i f h in
        rw (r (omega arith)) (
          init_root fs.files (omega (arith, t.cells)),
          λ z. absurd (omega arith),
          omega arith,
          omega arith,
        );
    unique = λ i j f g l k h h' p s. omega arith;
  },
  refl,
)
