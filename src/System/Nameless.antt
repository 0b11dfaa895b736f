-- ===== src/System/Nameless.antt =====
-- `touch` of a path that ends in a slash.
use native.Mathlib.Decide.{ℕ_discrete}
use fox_os.Base.{
  ℕ, suc, ◌+◌, ◌<◌, ◌≡◌, ◌≢◌, refl, ap, ◌∙◌, true, List, [], ◌∷◌, ◌++◌, none, some, ret, arith,
  get_elem?, All, Bool-cases, Option-cases, inl, inr, some-get_elem?, get_elem?-take, length, ◌*◌,
}
use fox_os.Fs.{max_files, max_filename, File, Fs, file_type_file, live, find_child, dir_at}
use fox_os.Fs.Entries.{or_root, create_at_path}
use fox_os.Fs.Entries.Parent.{create_at_path-split, last_slash-append, take-append, drop-append}
use fox_os.Fs.Lookup.{slash, fs_parse_path}
use fox_os.Fs.Lookup.Resolve.{resolve}
use fox_os.Fs.Removal.{has_child, delete_file_at}
use fox_os.Fs.Table.Create.{create_file-Created}
use fox_os.Fs.Table.Inv.{IsTree, create_file-IsTree, new_entry}
use fox_os.Fs.View.{IsName, find_child-IsChild, text_of-strcmp}
use fox_os.Fs.View.Entries.{create_file_succeeds}
use fox_os.Fs.View.Remove.{delete_refused, has_child-none, has_child-dir_at}
use fox_os.System.{System}
use fox_os.System.Files.{touch_at, touch_path, touch_in, report}
use fox_os.Terminal.Args.{build_path}

-- A list of names does not lead to an entry with an empty name.
nameless_unreached :
    (fs : Fs) (i j : ℕ) (names : List (List ℕ)) {f : File}
    → i ≢ j
    → get_elem? fs.files j ≡ some f
    → f.name ≡ []
    → All IsName names
    → resolve fs i names ≢ some j
unfolding resolve
nameless_unreached fs i j [] n e z a h = n (ground arith)
nameless_unreached fs i j (m ∷ names) {f} n e z a h = elim (Option-cases (find_child fs i m)) [
  | inl s ↦ absurd (ground arith)
  | inr (k, s) ↦ elim (ℕ_discrete k j) [
    | no o ↦
        let rest : resolve fs k names ≡ some j = ground arith in
        nameless_unreached fs k j names o e z a.1 rest
    | yes o ↦
        let c = find_child-IsChild fs i m s in
        let same : c.f ≡ f = ground arith in
        let empty : c.f.name ≡ [] = ap (λ g. g.name) same ∙ z in
        a.0.some_byte (text_of-strcmp [] m a.0.text (rw empty at c.named))
  ]
]

has_child-at :
    (xs : List File) (k i : ℕ) {f : File}
    → get_elem? xs i ≡ some f
    → f.parent_index ≡ k
    → has_child xs k ≡ true
has_child-at xs k i e p = elim (Bool-cases (has_child xs k)) [
  | inl h ↦ h
  | inr h ↦ absurd (has_child-none xs k i h e p)
]

-- `touch` of an argument whose path, built from the current directory, ends in a slash, where the
-- table is a tree with room for an entry, the part before the last slash has fewer than 512 bytes and
-- leads to a directory in use other than the root, and no entry with an empty name stands in that
-- directory yet. `fs_create` refuses the path, but `touch` makes an entry: no list of names leads to
-- it, and with it the directory cannot be removed.
pub touch_nameless :
    (k : System) (arg dir : List ℕ) (parent : ℕ)
    → IsTree k.fs
    → build_path k.current_dir arg ≡ ret (dir ++ (slash ∷ []))
    → length dir < max_filename * 2
    → fs_parse_path k.fs (or_root dir) ≡ ret (some (suc parent))
    → suc parent < k.fs.file_count
    → k.fs.file_count < max_files
    → dir_at k.fs.files (suc parent) ≡ true
    → find_child k.fs (suc parent) [] ≡ none
    → (create_at_path file_type_file k.fs (dir ++ (slash ∷ [])) ≡ ret (none, k.fs))
      × (fs' : Fs) × (touch_at k arg ≡ ret (record k { fs = fs' }))
      × (fs'.file_count ≡ k.fs.file_count + 1)
      × ((names : List (List ℕ)) → All IsName names → resolve fs' 0 names ≢ some k.fs.file_count)
      × (delete_file_at fs' (some (suc parent)) ≡ ret (none, fs'))
unfolding touch_at touch_path touch_in report
touch_nameless k arg dir parent v b l at below room d absent =
    let fs = k.fs in
    let (fs', made) =
      create_file_succeeds fs [] file_type_file (suc parent) room (omega (arith, v.fits)) d absent
        (omega arith) in
    let c = create_file-Created fs [] file_type_file (suc parent) made in
    let w = create_file-IsTree fs [] file_type_file (suc parent) v below made in
    let (f, e) = some-get_elem? fs'.files fs.file_count (omega (arith, w.table.cells)) in
    let (g, _, new) = new_entry v c f e in
    let full : has_child (live fs') (suc parent) ≡ true =
      has_child-at (live fs') (suc parent) fs.file_count
        (get_elem?-take fs'.file_count fs'.files fs.file_count (omega (arith, c.count)) ∙ e)
        (ap (λ x. x.parent_index) new) in
    (
      rw (create_at_path-split file_type_file fs dir [] tt l (omega arith)) refl,
      fs',
      rw (b, last_slash-append dir [] tt, take-append, drop-append, at, made) refl,
      ground (arith, c.count),
      λ names a.
          nameless_unreached fs' 0 fs.file_count names (λ z. omega (arith, v.not_empty)) e
            (ap (λ x. x.name) new) a,
      delete_refused fs' parent (has_child-dir_at fs' (suc parent) w full) full,
    )
