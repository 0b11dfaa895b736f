-- ===== src/Fs/View/Remove.antt =====
-- `fs_delete_file` on the files as their users see them.
use native.Mathlib.Decide.{ℕ_discrete}
use fox_os.Base.{
  ℕ, zero, suc, ◌+◌, ◌<◌, ◌≤◌, ◌≡◌, ◌≢◌, refl, sym, ap, ◌∙◌, Bool, true, false, ◌&&◌, List, [], ◌∷◌,
  Option, none, some, Run, ret, arith, get_elem?, All, All-get_elem?, Option-cases, Bool-cases, inl,
  inr, erase_idx, some-get_elem?, get_elem?-take,
}
use fox_os.Fs.{File, Fs, live, dir_at}
use fox_os.Fs.Lookup.{fs_parse_path}
use fox_os.Fs.Lookup.Resolve.{components, resolve, IsShort, parse_path_resolves}
use fox_os.Fs.Removal.{lower, has_child, delete_file_at, fs_delete_file}
use fox_os.Fs.Removal.Reindex.{without, delete_file_correct}
use fox_os.Fs.Sound.{resolve-lt}
use fox_os.Fs.Table.Inv.{IsTree, live_entry, parent-lt}
use fox_os.Fs.View.{node_of, node_at, node_at-entry, view, IsName, same_path}
use fox_os.Fs.View.Erase.{raise, sink, raise-ne, get_elem?-erase}
use fox_os.Fs.View.Kept.{delete-IsTable, delete-IsTree}
use fox_os.Fs.View.Moved.{old_of_new, resolve_back, resolve_on}
use fox_os.Fs.View.Names.{components-IsName}
use fox_os.Fs.View.Update.{IsUpdate}
use fox_os.Text.{IsText}

node_of-lower : (k : ℕ) (f : File) → node_of (lower k f) ≡ node_of f
node_of-lower k f = ground arith

pub has_child-none :
    (xs : List File) (k i : ℕ) {f : File}
    → has_child xs k ≡ false
    → get_elem? xs i ≡ some f
    → f.parent_index ≢ k
has_child-none [] k i h e = absurd (cc e)
has_child-none (x ∷ xs) k zero h e = λ p. ground arith
has_child-none (x ∷ xs) k (suc i) h e = has_child-none xs k i (ground arith) e

module _ (fs fs' : Fs) (k : ℕ) (v : IsTree fs) (same : live fs' ≡ without (suc k) (live fs))
    (bare : (i : ℕ) (f : File) → get_elem? (live fs) i ≡ some f → f.parent_index ≢ suc k)
    (low : suc k < fs.file_count) (w : IsTree fs') (p : List (List ℕ)) (names : All IsName p)
    (at : resolve fs 0 p ≡ some (suc k)) where
  root-sink : sink (suc k) 0 ≡ 0
  unfolding sink
  root-sink = refl

  back :
      (q : List (List ℕ)) (j : ℕ)
      → resolve fs' 0 q ≡ some j
      → resolve fs 0 q ≡ some (raise (suc k) j)
  back q j h = resolve_back fs fs' (suc k) v same bare 0 q j (λ z. omega arith) (rw root-sink h)

  on :
      (q : List (List ℕ)) (j : ℕ)
      → j ≢ suc k
      → resolve fs 0 q ≡ some j
      → resolve fs' 0 q ≡ some (sink (suc k) j)
  on q j n h =
      rw (sym root-sink) (resolve_on fs fs' (suc k) v same bare 0 q j (λ z. omega arith) n h)

  -- An entry that has moved is what it was.
  moved_node :
      (j : ℕ) → j < fs'.file_count → node_at fs' (some j) ≡ node_at fs (some (raise (suc k) j))
  moved_node j l =
      let (g, e) = some-get_elem? fs'.files j (omega (arith, w.table.cells, w.fits)) in
      let (f, s, z) =
        old_of_new fs fs' (suc k) v same bare j g
          (get_elem?-take fs'.file_count fs'.files j l ∙ e) in
      node_at-entry fs' j g e
      ∙ ap some (ap node_of z ∙ node_of-lower (suc k) f)
      ∙ sym (node_at-entry fs (raise (suc k) j) f (live_entry fs (raise (suc k) j) f s).1)

  pub delete-IsUpdate : IsUpdate (view fs) (view fs') p none
  unfolding view
  delete-IsUpdate = record {
    here = elim (Option-cases (resolve fs' 0 p)) [
      | inl n ↦ ap (node_at fs') n
      | inr (j, e) ↦ absurd (raise-ne (suc k) j (ground (arith, back p j e)))
    ];
    elsewhere = λ q all ne. elim (Option-cases (resolve fs' 0 q)) [
      | inr (j, e) ↦
          ap (node_at fs') e
          ∙ moved_node j (resolve-lt fs' 0 q w.not_empty e)
          ∙ sym (ap (node_at fs) (back q j e))
      | inl n ↦ elim (Option-cases (resolve fs 0 q)) [
        | inl o ↦ ap (node_at fs') n ∙ sym (ap (node_at fs) o)
        | inr (j, e) ↦ elim (ℕ_discrete j (suc k)) [
          | yes z ↦ absurd (ne (same_path v q p (suc k) all names (e ∙ ap some z) at))
          | no z ↦ absurd (cc (sym n ∙ on q j z e))
        ]
      ]
    ];
  }

-- What a removal promises: the entry is gone, and nothing else changed; -1 for a directory with
-- entries, and nothing changed.
abbrev pub Removes : Fs → List (List ℕ) → Bool → Run (Option ℕ × Fs) → Type 0
Removes fs p true r = r ≡ ret (none, fs)
Removes fs p false r =
    (fs' : Fs) × (r ≡ ret (some 0, fs')) × IsTree fs' × IsUpdate (view fs) (view fs') p none

-- No parent is an entry more than two places behind the index.
abbrev pub IsNear : Fs → ℕ → Type 0
IsNear fs k = (i : ℕ) (f : File) → get_elem? (live fs) i ≡ some f → f.parent_index ≤ k + 2

pub delete_refused :
    (fs : Fs) (k : ℕ)
    → dir_at fs.files (suc k) ≡ true
    → has_child (live fs) (suc k) ≡ true
    → delete_file_at fs (some (suc k)) ≡ ret (none, fs)
unfolding delete_file_at
delete_refused fs k d h = ground arith

pub has_child-dir_at :
    (fs : Fs) (k : ℕ) (v : IsTree fs) → has_child (live fs) k ≡ true → dir_at fs.files k ≡ true
has_child-dir_at fs k v h =
    let (i, f, e, p) = child (live fs) h in
    let (l, s) = live_entry fs i f e in rw (sym p) (v.parents i f l s).0
  where
    child :
        (xs : List File)
        → has_child xs k ≡ true
        → (i : ℕ) × (f : File) × (get_elem? xs i ≡ some f) × (f.parent_index ≡ k)
    child [] h = absurd (cc h)
    child (x ∷ xs) h = elim (ℕ_discrete x.parent_index k) [
      | yes z ↦ (0, x, refl, z)
      | no z ↦ let (i, f, e, p) = child xs (ground arith) in (suc i, f, e, p)
    ]

-- `fs_delete_file` of a path that leads to an entry other than the root, where no parent is an
-- entry more than two places behind that one. A directory with entries is refused with -1, and
-- nothing changes. Anything else is gone afterwards, 0 is returned, what stands under each other
-- list of names is what stood there, and the table stays a tree. The components of the path are
-- shorter than 256 bytes.
pub remove_refines :
    (fs : Fs) (path : List ℕ) (k : ℕ)
    → IsTree fs
    → IsText path
    → All IsShort (components path)
    → fs_parse_path fs path ≡ ret (some (suc k))
    → IsNear fs (suc k)
    → Removes fs (components path) (has_child (live fs) (suc k)) (fs_delete_file fs path)
unfolding fs_delete_file
remove_refines fs path k v t s e near =
    let p = components path in
    let at : resolve fs 0 p ≡ some (suc k) = ground (arith, parse_path_resolves fs path s) in
    let low = resolve-lt fs 0 p v.not_empty at in
    elim (Bool-cases (has_child (live fs) (suc k))) [
      | inl c ↦ rw (c, e, delete_refused fs k (has_child-dir_at fs (suc k) v c) c) refl
      | inr c ↦
          let h : (dir_at fs.files (suc k) && has_child (live fs) (suc k)) ≡ false =
            rw c (ground arith) in
          let (fs', d, count, same) =
            delete_file_correct fs k low (omega (arith, v.table.cells, v.fits)) h (
              All-get_elem? _ (erase_idx (live fs) (suc k)) (λ i f g.
                let g' = sym (get_elem?-erase (live fs) (suc k) i) ∙ g in
                let (l, b) = live_entry fs (raise (suc k) i) f g' in
                (near (raise (suc k) i) f g', parent-lt v (raise (suc k) i) f l b))) in
          let bare : (i : ℕ) (f : File) → get_elem? (live fs) i ≡ some f → f.parent_index ≢ suc k =
            λ i f g. has_child-none (live fs) (suc k) i {f = f} c g in
          let w =
            delete-IsTree fs fs' k v same bare low count
              (delete-IsTable fs fs' k v.table h low v.fits d) in
          rw (c, e, d)
            (
              fs',
              refl,
              w,
              delete-IsUpdate fs fs' k v same bare low w p (components-IsName path t) at,
            )
    ]
