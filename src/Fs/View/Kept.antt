-- ===== src/Fs/View/Kept.antt =====
-- `fs_delete_file` keeps the table a tree.
use fox_os.Base.{
  ret, ℕ, zero, suc, ◌-◌, ◌<◌, ◌≤◌, ◌≡◌, ◌≢◌, refl, sym, ap, ◌∙◌, true, false, ◌&&◌, List, [], ◌∷◌,
  ◌++◌, map, some, arith, get_elem?, set, take, drop, All, All-at, All-get_elem?, All-drop,
  Option-cases, inl, inr, length, get_elem?-take,
}
use fox_os.Fs.{max_files, max_file_size, File, Fs, live, dir_at}
use fox_os.Fs.Removal.{lower, lower_parents, has_child, delete_file_at}
use fox_os.Fs.Removal.Reindex.{removed, delete_file_at-ret, without}
use fox_os.Fs.Removal.Shift.{copied_next, shifted_down, length-shifted_down}
use fox_os.Fs.Table.Inv.{IsTable, IsTree, live_entry, parent-lt}
use fox_os.Fs.View.Erase.{
  raise, sink, raise-ne, sink-raise, sink_inj, sink-lt, sink-le, lower-parent, lower-name,
}
use fox_os.Fs.View.Moved.{old_of_new, new_of_old}
use fox_os.Text.{strcmp, is_zero}

-- The content of an entry fills its array.
abbrev HasData : File → Type 0
HasData f = length f.content ≡ max_file_size

All-set :
    (xs : List File) (i : ℕ) (f : File) → All HasData xs → HasData f → All HasData (set xs i f)
All-set [] i f a h = tt
All-set (x ∷ xs) zero f a h = (h, a.1)
All-set (x ∷ xs) (suc i) f a h = (a.0, All-set xs i f a.1 h)

All-lower : (i n : ℕ) (xs : List File) → All HasData xs → All HasData (map (lower i) (take n xs))
All-lower i zero xs a = tt
All-lower i (suc n) [] a = tt
All-lower i (suc n) (x ∷ xs) a = (ground (arith, a.0), All-lower i n xs a.1)

All-append : (xs ys : List File) → All HasData xs → All HasData ys → All HasData (xs ++ ys)
All-append [] ys a b = b
All-append (x ∷ xs) ys a b = (a.0, All-append xs ys a.1 b)

copied_next-All :
    (files : List File) (i : ℕ) → All HasData files → All HasData (copied_next files i)
copied_next-All files i a = elim (Option-cases (get_elem? files (suc i))) [
  | inl n ↦ rw (copied_next, n) a
  | inr (f, e) ↦ rw (copied_next, e) (All-set files i f a (All-at HasData files (suc i) a e))
]

shifted_down-All :
    (r count i : ℕ) (files : List File)
    → All HasData files
    → All HasData (shifted_down r count i files)
unfolding shifted_down
shifted_down-All zero count i files a = a
shifted_down-All (suc r) count i files a =
    let b = copied_next-All files i a in
    let c = copied_next files i in
    shifted_down-All r count (suc i) (lower_parents count i c) (
      All-append (map (lower i) (take count c)) (drop count c) (All-lower i count c b)
        (All-drop HasData count c b))

pub delete-IsTable :
    (fs fs' : Fs) (k : ℕ)
    → IsTable fs.files
    → (dir_at fs.files (suc k) && has_child (live fs) (suc k)) ≡ false
    → suc k < fs.file_count
    → fs.file_count ≤ max_files
    → delete_file_at fs (some (suc k)) ≡ ret (some 0, fs')
    → IsTable fs'.files
delete-IsTable fs fs' k t h l fit e =
    let r = fs.file_count - 1 - suc k in
    let z : fs'.files ≡ shifted_down r fs.file_count (suc k) fs.files =
      let q : removed fs k ≡ fs' =
        cc (sym (delete_file_at-ret fs k l (omega (arith, t.cells)) h) ∙ e) in
      ap (λ x. x.files) (sym q) in
    let a =
      shifted_down-All r fs.file_count (suc k) fs.files
        (All-get_elem? HasData fs.files t.contents) in
    record {
      cells =
          ap length z
          ∙ length-shifted_down r fs.file_count (suc k) fs.files (omega (arith, t.cells))
          ∙ t.cells;
      contents = λ i f g.
          All-at HasData (shifted_down r fs.file_count (suc k) fs.files) i a
            (ap (λ xs. get_elem? xs i) (sym z) ∙ g);
    }

module _ (fs fs' : Fs) (k : ℕ) (v : IsTree fs) (same : live fs' ≡ without (suc k) (live fs))
    (bare : (i : ℕ) (f : File) → get_elem? (live fs) i ≡ some f → f.parent_index ≢ suc k)
    (low : suc k < fs.file_count) (count : fs'.file_count ≡ fs.file_count - 1) where
  old_entry :
      (i : ℕ) (g : File)
      → i < fs'.file_count
      → get_elem? fs'.files i ≡ some g
      → (f : File) × (raise (suc k) i < fs.file_count)
        × (get_elem? fs.files (raise (suc k) i) ≡ some f)
        × (g ≡ lower (suc k) f)
        × (f.parent_index ≢ suc k)
  old_entry i g l e =
      let (f, s, z) =
        old_of_new fs fs' (suc k) v same bare i g
          (get_elem?-take fs'.file_count fs'.files i l ∙ e) in
      let (b, t) = live_entry fs (raise (suc k) i) f s in (f, b, t, z, bare (raise (suc k) i) f s)

  new_dir :
      (p : ℕ)
      → p ≢ suc k
      → p < fs.file_count
      → dir_at fs.files p ≡ true
      → dir_at fs'.files (sink (suc k) p) ≡ true
  new_dir p n l d = elim (Option-cases (get_elem? fs.files p)) [
    | inl a ↦ absurd (ground arith)
    | inr (f, e) ↦
        let at =
          new_of_old fs fs' (suc k) v same bare p f n
            (get_elem?-take fs.file_count fs.files p l ∙ e) in
        let (b, t) = live_entry fs' (sink (suc k) p) (lower (suc k) f) at in ground arith
  ]

  root-raise : raise (suc k) 0 ≡ 0
  unfolding raise
  root-raise = refl

  pub delete-IsTree : IsTable fs'.files → IsTree fs'
  delete-IsTree t = record {
    table = t;
    not_empty = omega (arith, count);
    fits = omega (arith, count, v.fits);
    root = λ g e.
        let (f, b, s, z, n) = old_entry 0 g (omega (arith, count)) e in
        let (p, m) = v.root f (ap (get_elem? fs.files) (sym root-raise) ∙ s) in
        (
          ap (λ x. x.parent_index) z ∙ ground (arith, p),
          ap (λ x. x.name) z ∙ lower-name (suc k) f ∙ m,
        );
    parents = λ i g l e.
        let (f, b, s, z, n) = old_entry i g l e in
        let (d, before, short, size) = v.parents (raise (suc k) i) f b s in
        let parent : g.parent_index ≡ sink (suc k) f.parent_index =
          ap (λ x. x.parent_index) z ∙ lower-parent (suc k) f n in
        (
          rw parent (new_dir f.parent_index n (parent-lt v (raise (suc k) i) f b s) d),
          λ o.
              let up : i ≤ raise (suc k) i =
                omega (arith, sink-le (suc k) (raise (suc k) i), sink-raise (suc k) i) in
              omega (
                arith,
                parent,
                sink-lt (suc k) f.parent_index (raise (suc k) i) n (raise-ne (suc k) i)
                    (before (omega (arith, up))),
                sink-raise (suc k) i,
              ),
          rw (ap (λ x. x.name) z, lower-name (suc k) f) short,
          rw (ap (λ x. x.size) z) (ground (arith, size)),
        );
    unique = λ i j f g l m e e' p n.
        let (a, b, s, z, o) = old_entry i f l e in
        let (a', b', s', z', o') = old_entry j g m e' in
        let parents : sink (suc k) a.parent_index ≡ sink (suc k) a'.parent_index =
          sym (ap (λ x. x.parent_index) z ∙ lower-parent (suc k) a o)
          ∙ p
          ∙ ap (λ x. x.parent_index) z'
          ∙ lower-parent (suc k) a' o' in
        let names : is_zero (strcmp a.name a'.name) ≡ true =
          rw
            (
              sym (ap (λ x. x.name) z ∙ lower-name (suc k) a),
              sym (ap (λ x. x.name) z' ∙ lower-name (suc k) a'),
            )
            n in
        let old =
          v.unique (raise (suc k) i) (raise (suc k) j) a a' b b' s s'
            (sink_inj (suc k) a.parent_index a'.parent_index o o' parents) names in
        sym (sink-raise (suc k) i) ∙ ap (sink (suc k)) old ∙ sink-raise (suc k) j;
  }
