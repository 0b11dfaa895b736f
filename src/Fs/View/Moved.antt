-- ===== src/Fs/View/Moved.antt =====
-- The lookup of names once an entry has been removed and those behind it have moved.
use native.Mathlib.Decide.{ℕ_discrete}
use fox_os.Base.{
  ℕ, ◌≡◌, ◌≢◌, refl, sym, ap, ◌∙◌, true, List, [], ◌∷◌, none, some, arith, get_elem?, Option-cases,
  inl, inr, find_index_sound, get_elem?-take, find_index-none, erase_idx,
}
use fox_os.Fs.{File, Fs, live, find_child, is_named}
use fox_os.Fs.Lookup.Resolve.{resolve}
use fox_os.Fs.Removal.{lower}
use fox_os.Fs.Removal.Reindex.{without}
use fox_os.Fs.Table.Inv.{IsTree, live_entry}
use fox_os.Fs.View.{find_child-IsChild}
use fox_os.Fs.View.Erase.{
  raise, sink, raise-ne, sink-raise, raise-sink, sink_inj, get_elem?-erase, get_elem?-map,
  lower-parent, lower-name,
}
use fox_os.Text.{strcmp, is_zero}

pub strcmp_join :
    (s t m : List ℕ)
    → is_zero (strcmp s m) ≡ true
    → is_zero (strcmp t m) ≡ true
    → is_zero (strcmp s t) ≡ true
unfolding strcmp
strcmp_join [] [] m h k = refl
strcmp_join [] (y ∷ t) [] h k = ground arith
strcmp_join [] (y ∷ t) (z ∷ m) h k = ground arith
strcmp_join (x ∷ s) [] [] h k = ground arith
strcmp_join (x ∷ s) [] (z ∷ m) h k = ground arith
strcmp_join (x ∷ s) (y ∷ t) [] h k = ground arith
strcmp_join (x ∷ s) (y ∷ t) (z ∷ m) h k = ground (arith, strcmp_join s t m)

-- A lookup finds an entry of the name.
pub found_child :
    {fs : Fs} (v : IsTree fs) (i : ℕ) (m : List ℕ) (j : ℕ) (f : File)
    → get_elem? (live fs) j ≡ some f
    → f.parent_index ≡ i
    → is_zero (strcmp f.name m) ≡ true
    → find_child fs i m ≡ some j
unfolding find_child
found_child {fs} v i m j f e p n = elim (Option-cases (find_child fs i m)) [
  | inl a ↦ absurd (ground (arith, find_index-none (is_named i m) (live fs) j a e))
  | inr (l, s) ↦
      let c = find_child-IsChild fs i m s in
      let (b, g) = live_entry fs j f e in
      let z =
        v.unique l j c.f f c.live b c.entry g (c.parent ∙ sym p)
          (strcmp_join c.f.name f.name m c.named n) in
      s ∙ ap some z
]

module _ (fs fs' : Fs) (k : ℕ) (v : IsTree fs) (same : live fs' ≡ without k (live fs))
    (bare : (i : ℕ) (f : File) → get_elem? (live fs) i ≡ some f → f.parent_index ≢ k) where
  new_cell :
      (i : ℕ)
      → get_elem? (live fs') i
        ≡ elim (get_elem? (live fs) (raise k i)) [ none ↦ none | some f ↦ some (lower k f) ]
  new_cell i =
      ap (λ xs. get_elem? xs i) same
      ∙ get_elem?-map (lower k) (erase_idx (live fs) k) i
      ∙ rw (get_elem?-erase (live fs) k i) refl

  -- Each entry of the new table was one of the old.
  pub old_of_new :
      (i : ℕ) (g : File)
      → get_elem? (live fs') i ≡ some g
      → (f : File) × (get_elem? (live fs) (raise k i) ≡ some f) × (g ≡ lower k f)
  old_of_new i g e = elim (Option-cases (get_elem? (live fs) (raise k i))) [
    | inl n ↦ absurd (ground (arith, new_cell i))
    | inr (f, s) ↦ (f, s, ground (arith, new_cell i))
  ]

  pub new_of_old :
      (j : ℕ) (f : File)
      → j ≢ k
      → get_elem? (live fs) j ≡ some f
      → get_elem? (live fs') (sink k j) ≡ some (lower k f)
  new_of_old j f n e = new_cell (sink k j) ∙ rw (raise-sink k j n, e) refl

  child_back :
      (i : ℕ) (m : List ℕ) (j : ℕ)
      → i ≢ k
      → find_child fs' (sink k i) m ≡ some j
      → find_child fs i m ≡ some (raise k j)
  unfolding find_child
  child_back i m j n h =
      let (g, e, p) = find_index_sound (is_named (sink k i) m) (live fs') h in
      let (f, s, z) = old_of_new j g e in
      let b = bare (raise k j) f s in
      let parent : sink k f.parent_index ≡ sink k i =
        sym (lower-parent k f b) ∙ ap (λ x. x.parent_index) (sym z) ∙ ground arith in
      found_child v i m (raise k j) f s (sink_inj k f.parent_index i b n parent)
        (ap (λ x. is_zero (strcmp x m)) (sym (ap (λ x. x.name) z ∙ lower-name k f)) ∙ ground arith)

  child_on :
      (i : ℕ) (m : List ℕ) (j : ℕ)
      → i ≢ k
      → j ≢ k
      → find_child fs i m ≡ some j
      → find_child fs' (sink k i) m ≡ some (sink k j)
  unfolding find_child
  child_on i m j n l h =
      let (f, e, p) = find_index_sound (is_named i m) (live fs) h in
      let new = new_of_old j f l e in
      elim (Option-cases (find_child fs' (sink k i) m)) [
        | inl a ↦
            let parent = lower-parent k f (bare j f e) in
            absurd (
              ground (
                arith,
                find_index-none (is_named (sink k i) m) (live fs') (sink k j) a new,
                parent,
                lower-name k f,
              ))
        | inr (t, s) ↦
            let back : find_child fs i m ≡ some (raise k t) = child_back i m t n s in
            let z : j ≡ raise k t = ground arith in
            s ∙ ap some (sym (ap (sink k) z ∙ sink-raise k t))
      ]

  childless : (m : List ℕ) → find_child fs k m ≡ none
  childless m = elim (Option-cases (find_child fs k m)) [
    | inl a ↦ a
    | inr (j, s) ↦
        let c = find_child-IsChild fs k m s in
        absurd (bare j c.f (get_elem?-take fs.file_count fs.files j c.live ∙ c.entry) c.parent)
  ]

  stuck : (names : List (List ℕ)) (j : ℕ) → resolve fs k names ≡ some j → j ≡ k
  unfolding resolve
  stuck [] j h = ground arith
  stuck (m ∷ names) j h = absurd (ground (arith, childless m))

  -- What the new table leads to, the old one leads to, and back but for the removed entry.
  pub resolve_back :
      (i : ℕ) (names : List (List ℕ)) (j : ℕ)
      → i ≢ k
      → resolve fs' (sink k i) names ≡ some j
      → resolve fs i names ≡ some (raise k j)
  unfolding resolve
  resolve_back i [] j n h =
      let z : sink k i ≡ j = ground arith in ap some (sym (raise-sink k i n) ∙ ap (raise k) z)
  resolve_back i (m ∷ names) j n h = elim (Option-cases (find_child fs' (sink k i) m)) [
    | inl a ↦ absurd (ground arith)
    | inr (t, s) ↦
        let rest : resolve fs' t names ≡ some j = ground arith in
        let old = child_back i m t n s in
        rw (resolve, old)
          (resolve_back (raise k t) names j (raise-ne k t) (rw (sink-raise k t) rest))
  ]

  pub resolve_on :
      (i : ℕ) (names : List (List ℕ)) (j : ℕ)
      → i ≢ k
      → j ≢ k
      → resolve fs i names ≡ some j
      → resolve fs' (sink k i) names ≡ some (sink k j)
  unfolding resolve
  resolve_on i [] j n l h = ground arith
  resolve_on i (m ∷ names) j n l h = elim (Option-cases (find_child fs i m)) [
    | inl a ↦ absurd (ground arith)
    | inr (t, s) ↦
        let rest : resolve fs t names ≡ some j = ground arith in
        elim (ℕ_discrete t k) [
          | no z ↦ rw (resolve, child_on i m t n z s) (resolve_on t names j z l rest)
          | yes z ↦ absurd (l (stuck names j (rw (sym z) rest)))
        ]
  ]
