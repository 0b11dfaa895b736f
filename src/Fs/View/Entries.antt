-- ===== src/Fs/View/Entries.antt =====
-- All outcomes of `fs_mkdir` and `fs_create`.
use fox_os.Base.{
  ℕ, ◌+◌, ◌*◌, ◌<◌, ◌≤◌, ◌≡◌, refl, sym, ap, ◌∙◌, true, false, List, [], ◌∷◌, ◌++◌, none, some, ret,
  length, modify, arith, get_elem?, All, Option-cases, Bool-cases, inl, inr, some-get_elem?, ltb,
  lt→leb, lt→ltb, ltb→lt, ltb_false→le,
}
use fox_os.Fs.{max_files, max_filename, FileType, File, Fs, find_child, dir_at}
use fox_os.Fs.Entries.{add_entry, or_root, create_at_path}
use fox_os.Fs.Entries.Reach.{components-or_root}
use fox_os.Fs.Entries.Parent.{create_at_path-split}
use fox_os.Fs.Lookup.{slash, fs_parse_path}
use fox_os.Fs.Lookup.Append.{NoSlash, resolve-append}
use fox_os.Fs.Lookup.Resolve.{components, resolve, IsShort, parse_path_resolves}
use fox_os.Fs.Sound.{resolve-lt}
use fox_os.Fs.Table.{fs_create_file}
use fox_os.Fs.Table.Create.{create_file-Created, find_child-create, made}
use fox_os.Fs.Table.Inv.{IsTree, create_file-IsTree}
use fox_os.Fs.View.{node_at, node_at-entry, view, IsName}
use fox_os.Fs.View.Create.{
  create-IsUpdate, reached, resolve_absent, is_directory, is_directory-dir_at, is_nothing,
  may_create, Creates,
}
use fox_os.Fs.View.Names.{components-IsName}
use fox_os.Text.{IsText}

create_file_full :
    (fs : Fs) (name : List ℕ) (type : FileType) (parent : ℕ)
    → max_files ≤ fs.file_count
    → fs_create_file fs name type parent ≡ ret (none, fs)
unfolding fs_create_file
create_file_full fs name type parent h = ground arith

create_file_no_directory :
    (fs : Fs) (name : List ℕ) (type : FileType) (parent : ℕ)
    → dir_at fs.files parent ≡ false
    → fs_create_file fs name type parent ≡ ret (none, fs)
unfolding fs_create_file
create_file_no_directory fs name type parent h = ground arith

create_file_exists :
    (fs : Fs) (name : List ℕ) (type : FileType) (parent i : ℕ)
    → find_child fs parent name ≡ some i
    → fs_create_file fs name type parent ≡ ret (none, fs)
unfolding fs_create_file
create_file_exists fs name type parent i h = ground arith

pub create_file_succeeds :
    (fs : Fs) (name : List ℕ) (type : FileType) (parent : ℕ)
    → fs.file_count < max_files
    → parent < max_files
    → dir_at fs.files parent ≡ true
    → find_child fs parent name ≡ none
    → length name < max_filename
    → (fs' : Fs) × (fs_create_file fs name type parent ≡ ret (some fs.file_count, fs'))
unfolding fs_create_file
create_file_succeeds fs name type parent room low d absent short = (
  record {
    files = modify fs.files fs.file_count (made name type parent);
    file_count = fs.file_count + 1;
  },
  rw
      (
        lt→leb max_files fs.file_count room,
        lt→leb max_files parent low,
        d,
        absent,
        lt→ltb (length name) max_filename short,
      )
      refl,
)

module _ (fs : Fs) (type : FileType) (p : List (List ℕ)) (names : All IsName p)
    (v : IsTree fs) where
  module _ (c : ℕ) (cs : List ℕ) (parent : ℕ) (text : IsText (c ∷ cs))
      (at : resolve fs 0 p ≡ some parent) where
    there :
        (j : ℕ)
        → find_child fs parent (c ∷ cs) ≡ some j
        → is_nothing (view fs (p ++ ((c ∷ cs) ∷ []))) ≡ false
    unfolding view
    there j s =
        let r = resolve-append fs fs 0 p (c ∷ cs) (λ q m l e. e) at s in
        let (g, e) =
          some-get_elem? fs.files j
            (omega (arith, v.table.cells, v.fits, resolve-lt fs 0 _ v.not_empty r)) in
        ap (λ o. is_nothing (node_at fs o)) r ∙ ap is_nothing (node_at-entry fs j g e)

    not_there :
        find_child fs parent (c ∷ cs) ≡ none → is_nothing (view fs (p ++ ((c ∷ cs) ∷ []))) ≡ true
    unfolding view
    not_there a = ap (λ o. is_nothing (node_at fs o)) (resolve_absent fs 0 p (c ∷ cs) at a)

    kind :
        (f : File)
        → get_elem? fs.files parent ≡ some f
        → is_directory (view fs p) ≡ dir_at fs.files parent
    unfolding view
    kind f e =
        ap (λ r. is_directory (node_at fs r)) at
        ∙ ap is_directory (node_at-entry fs parent f e)
        ∙ is_directory-dir_at fs parent f f.type e refl

    new-Creates :
        (fs' : Fs)
        → parent < fs.file_count
        → fs_create_file fs (c ∷ cs) type parent ≡ ret (some fs.file_count, fs')
        → Creates fs type p (c ∷ cs) true (fs_create_file fs (c ∷ cs) type parent)
    new-Creates fs' below h =
        let name = c ∷ cs in
        let w = create_file-IsTree fs name type parent v below h in
        let (found, kept) = find_child-create fs name type parent v.table.cells h in
        (
          fs.file_count,
          fs',
          h,
          w,
          reached v w (create_file-Created fs name type parent h) kept below p names
              (record { some_byte = λ z. cc; text = text }) at found,
          create-IsUpdate v w (create_file-Created fs name type parent h) kept below p names
              (record { some_byte = λ z. cc; text = text }) at found,
        )

    -- In a directory that has been found.
    create_file-Creates :
        length (c ∷ cs) < max_filename
        → Creates fs type p
            (c ∷ cs)
            (may_create fs p (c ∷ cs))
            (fs_create_file fs (c ∷ cs) type parent)
    unfolding may_create
    create_file-Creates short =
        let name = c ∷ cs in
        let below = resolve-lt fs 0 p v.not_empty at in
        let (f, e) = some-get_elem? fs.files parent (omega (arith, v.table.cells, v.fits)) in
        elim (Bool-cases (ltb fs.file_count max_files)) [
          | inr full ↦ rw full (create_file_full fs name type parent (ltb_false→le _ _ full))
          | inl room ↦ elim (Bool-cases (dir_at fs.files parent)) [
            | inr d ↦ rw (room, kind f e, d) (create_file_no_directory fs name type parent d)
            | inl d ↦ elim (Option-cases (find_child fs parent name)) [
              | inr (j, s) ↦
                  rw (room, kind f e, d, there j s) (create_file_exists fs name type parent j s)
              | inl a ↦
                  let (fs', h) =
                    create_file_succeeds fs name type parent (ltb→lt _ _ room)
                      (omega (arith, v.fits)) d a short in
                  rw (room, kind f e, d, not_there a) (new-Creates fs' below h)
            ]
          ]
        ]

  no_view : resolve fs 0 p ≡ none → is_directory (view fs p) ≡ false
  unfolding view
  no_view n = ap (λ o. is_directory (node_at fs o)) n

  no_directory : (name : List ℕ) → is_directory (view fs p) ≡ false → may_create fs p name ≡ false
  unfolding may_create
  no_directory name d = elim (Bool-cases (ltb fs.file_count max_files)) [
    | inl e ↦ rw (e, d) refl
    | inr e ↦ rw e refl
  ]

  no_name : may_create fs p [] ≡ false
  unfolding may_create
  no_name = elim (Bool-cases (ltb fs.file_count max_files)) [
    | inl e ↦ elim (Bool-cases (is_directory (view fs p))) [
      | inl d ↦ rw (e, d) refl
      | inr d ↦ rw (e, d) refl
    ]
    | inr e ↦ rw e refl
  ]

  -- The directory is looked up first.
  add_entry-Creates :
      (dir name : List ℕ)
      → p ≡ components dir
      → All IsShort p
      → IsText name
      → length name < max_filename
      → Creates fs type p name (may_create fs p name) (add_entry fs type (or_root dir) name)
  add_entry-Creates dir [] e s text short = rw no_name refl
  add_entry-Creates dir (c ∷ cs) e s text short =
      let parsed : fs_parse_path fs (or_root dir) ≡ ret (resolve fs 0 p) =
        parse_path_resolves fs (or_root dir) (rw (components-or_root dir, sym e) s)
        ∙ ap (λ q. ret (resolve fs 0 q)) (components-or_root dir ∙ sym e) in
      elim (Option-cases (resolve fs 0 p)) [
        | inl n ↦ rw (no_directory (c ∷ cs) (no_view n), parsed, n) refl
        | inr (parent, at) ↦ rw (parsed, at) (create_file-Creates c cs parent text at short)
      ]

-- `fs_mkdir` and `fs_create` of a path that ends in a slash and a name, in a table that is a tree.
-- If the table has room, a directory stands before the last slash, the name is not empty, and nothing stands
-- under the path, then an empty directory or file stands there afterwards, the index of the entry
-- that the path leads to is returned,
-- nothing else has changed, and the table stays a tree. Else -1 is returned and nothing has changed.
-- The components of the path are shorter than 256 bytes, the part before the last slash is
-- shorter than 512.
pub create_refines :
    (type : FileType) (fs : Fs) (dir name : List ℕ)
    → IsTree fs
    → IsText dir
    → IsText name
    → NoSlash name
    → length dir < max_filename * 2
    → length name < max_filename
    → All IsShort (components dir)
    → Creates fs type
        (components dir)
        name
        (may_create fs (components dir) name)
        (create_at_path type fs (dir ++ (slash ∷ name)))
create_refines type fs dir name v text text' n l k s =
    rw (create_at_path-split type fs dir name n l k) (
      add_entry-Creates fs type (components dir) (components-IsName dir text) v dir name refl s
        text' k)
