-- ===== src/System/Safe/Paths.antt =====
-- Paths that the commands build, and what the file system does with them.
use fox_os.Base.{
  ℕ, suc, ◌+◌, ◌<◌, ◌≤◌, ◌≡◌, refl, sym, ap, ◌⊎◌, inl, inr, true, List, [], ◌∷◌, ◌++◌, Option, none,
  some, Run, ret, Ends, bind-Ends, arith, length, length-append, All, All-imp, Bool-cases, ◌==◌,
  ==→eq, eq→==,
}
use fox_os.Fs.{FileType, Fs}
use fox_os.Fs.Lookup.{slash, fs_parse_path}
use fox_os.Fs.Lookup.Resolve.{
  extend, split, nonempty, components, resolve, IsShort, parse_path_resolves,
}
use fox_os.Fs.Lookup.Append.{NoSlash, components-append, components-slash}
use fox_os.Fs.Table.{fs_create_file}
use fox_os.Fs.Entries.{or_root, add_entry, create_at_path}
use fox_os.Fs.Entries.Parent.{create_at_path-split}
use fox_os.Fs.Sound.{IsSound, create_file-IsSound, resolve-lt}
use fox_os.Terminal.Args.{is_absolute, build_path}
use fox_os.Terminal.Args.Paths.{absolute_path, relative_path}
use fox_os.System.Safe.{IsPath}

All-extend :
    (n c : ℕ) (ps : List (List ℕ))
    → All (λ p. length p ≤ n) ps
    → All (λ p. length p ≤ suc n) (extend c ps)
All-extend n c [] a = (omega arith, tt)
All-extend n c (p ∷ ps) a = (
  omega (arith, a.0),
  All-imp (λ q. length q ≤ n) (λ q. length q ≤ suc n) ps (λ q l. omega arith) a.1,
)

All-split : (path : List ℕ) → All (λ p. length p ≤ length path) (split path)
All-split [] = (omega arith, tt)
All-split (c ∷ path) = elim (Bool-cases (c == slash)) [
  | inl e ↦ rw e (
    omega arith,
    All-imp (λ q. length q ≤ length path) (λ q. length q ≤ suc (length path)) (split path)
        (λ q l. omega arith) (All-split path),
  )
  | inr e ↦ rw e (All-extend (length path) c (split path) (All-split path))
]

All-nonempty : (ps : List (List ℕ)) → All IsShort ps → All IsShort (nonempty ps)
All-nonempty [] a = tt
All-nonempty ([] ∷ ps) a = All-nonempty ps a.1
All-nonempty ((c ∷ p) ∷ ps) a = (a.0, All-nonempty ps a.1)

-- The components of a short path are short.
pub components-IsShort : (path : List ℕ) → length path < 256 → All IsShort (components path)
unfolding components
components-IsShort path l = All-nonempty (split path) (
    All-imp (λ p. length p ≤ length path) IsShort (split path) (λ p q. omega (arith, q))
      (All-split path))

pub All-append : (xs ys : List (List ℕ)) → All IsShort xs → All IsShort ys → All IsShort (xs ++ ys)
All-append [] ys a b = b
All-append (x ∷ xs) ys a b = (a.0, All-append xs ys a.1 b)

All-before : (xs ys : List (List ℕ)) → All IsShort (xs ++ ys) → All IsShort xs
All-before [] ys a = tt
All-before (x ∷ xs) ys a = (a.0, All-before xs ys a.1)

All-behind : (xs ys : List (List ℕ)) → All IsShort (xs ++ ys) → All IsShort ys
All-behind [] ys a = a
All-behind (x ∷ xs) ys a = All-behind xs ys a.1

pub absolute_rest : (arg : List ℕ) → is_absolute arg ≡ true → (rest : List ℕ) × (arg ≡ slash ∷ rest)
absolute_rest [] e = absurd (cc e)
absolute_rest (c ∷ arg) e = (arg, ap (λ x. x ∷ arg) (==→eq c slash e))

IsPath-from :
    (r arg : List ℕ) (n : ℕ)
    → All IsShort (components (slash ∷ r))
    → length (slash ∷ r) ≤ n
    → 0 < length arg
    → length arg < 256
    → n + 257 ≤ 512
    → Ends (build_path (slash ∷ r) arg) (λ full. IsPath full (n + 256))
IsPath-from r arg n names short h l m = elim (Bool-cases (is_absolute arg)) [
  | inl e ↦
      let (rest, a) = absolute_rest arg e in
      (
        arg,
        absolute_path r arg e (omega arith),
        record { rest = rest; absolute = a; short = omega arith; names = components-IsShort arg l },
      )
  | inr e ↦
      let (full, b, c, (rest, a), size) = relative_path r arg e (omega arith) in
      (
        full,
        b,
        record {
          rest = rest;
          absolute = a;
          short = omega (arith, size);
          names = rw c (
              All-append (components (slash ∷ r)) (components arg) names
                (components-IsShort arg l));
        },
      )
]

-- `build_path` of a short argument gives a path.
pub build_path-IsPath :
    (dir arg : List ℕ) (n : ℕ)
    → IsPath dir n
    → 0 < length arg
    → length arg < 256
    → n + 257 ≤ 512
    → Ends (build_path dir arg) (λ full. IsPath full (n + 256))
build_path-IsPath dir arg n d h l m =
    rw (sym d.absolute) at (from_slash d.rest (rw d.absolute at d.names) (rw d.absolute at d.short))
  where
    from_slash :
        (r : List ℕ)
        → All IsShort (components (slash ∷ r))
        → length (slash ∷ r) ≤ n
        → Ends (build_path (slash ∷ r) arg) (λ full. IsPath full (n + 256))
    from_slash r names short = IsPath-from r arg n names short h l m

-- A path with a slash is a directory and a name.
pub split_last :
    (path : List ℕ)
    → NoSlash path
      ⊎ ((dir : List ℕ) × (name : List ℕ) × (path ≡ dir ++ (slash ∷ name)) × NoSlash name)
split_last [] = inl tt
split_last (c ∷ path) = elim (split_last path) [
  | inr (dir, name, e, n) ↦ inr (c ∷ dir, name, ap (c ∷◌) e, n)
  | inl n ↦ elim (Bool-cases (c == slash)) [
    | inl e ↦ inr ([], path, ap (λ x. x ∷ path) (==→eq c slash e), n)
    | inr e ↦ inl ((λ z. cc (rw (eq→== c slash z) at e)), n)
  ]
]

-- A path leads to an entry in use, or nowhere.
pub parse_path-Ends :
    (fs : Fs) (path : List ℕ)
    → 0 < fs.file_count
    → All IsShort (components path)
    → Ends (fs_parse_path fs path) (λ r. (i : ℕ) → r ≡ some i → i < fs.file_count)
parse_path-Ends fs path l a = (
  resolve fs 0 (components path),
  parse_path_resolves fs path a,
  λ i e. resolve-lt fs 0 (components path) l e,
)

-- The last name of a path, and its directory.
pub record IsSplit (path dir name : List ℕ) : Type 0 where
  pub whole : path ≡ dir ++ (slash ∷ name)
  pub last : NoSlash name
  pub fits : length dir < 512
  pub short : length name < 256
  pub names : All IsShort (components dir)

name-short :
    (dir name : List ℕ)
    → NoSlash name
    → All IsShort (components (dir ++ (slash ∷ name)))
    → length name < 256
name-short dir [] n a = omega arith
name-short dir (c ∷ name) n a =
    (All-behind (components dir) ((c ∷ name) ∷ []) (rw (components-append dir c name n) at a)).0

pub IsSplit-path :
    (path : List ℕ) (n : ℕ)
    → IsPath path n
    → n < 512
    → (dir : List ℕ) × (name : List ℕ) × IsSplit path dir name
IsSplit-path path n p l = elim (split_last path) [
  | inl unslashed ↦ absurd ((rw p.absolute at unslashed).0 refl)
  | inr (dir, name, e, last) ↦
      let a : All IsShort (components (dir ++ (slash ∷ name))) = rw e at p.names in
      (
        dir,
        name,
        record {
          whole = e;
          last = last;
          fits = omega (arith, length-append dir (slash ∷ name), ap length e, p.short);
          short = name-short dir name last a;
          names =
              All-before (components dir) (components name) (rw (components-slash dir name) at a);
        },
      )
]

pub or_root-names :
    (dir : List ℕ) → All IsShort (components dir) → All IsShort (components (or_root dir))
or_root-names [] a = unfold components in tt
or_root-names (c ∷ dir) a = a

-- What is created in the directory that a path leads to.
pub create_in-IsSound :
    (fs : Fs) (type : FileType) (name : List ℕ) (r : Option ℕ)
    → IsSound fs
    → length name < 256
    → Ends
        (elim r as (λ x. Run (Option ℕ × Fs)) [
          | none ↦ ret (none, fs)
          | some i ↦ fs_create_file fs name type i
        ])
        (λ r'. IsSound r'.1)
create_in-IsSound fs type name none v l = ((none, fs), refl, v)
create_in-IsSound fs type name (some i) v l = create_file-IsSound fs name type i v l

add_entry-IsSound :
    (fs : Fs) (type : FileType) (dir name : List ℕ)
    → IsSound fs
    → length name < 256
    → All IsShort (components dir)
    → Ends (add_entry fs type (or_root dir) name) (λ r. IsSound r.1)
add_entry-IsSound fs type dir [] v l a = ((none, fs), refl, v)
add_entry-IsSound fs type dir (c ∷ name) v l a =
    bind-Ends (parse_path-Ends fs (or_root dir) v.not_empty (or_root-names dir a))
      (λ r h. create_in-IsSound fs type (c ∷ name) r v l)

pub create_at_path-IsSound :
    (fs : Fs) (type : FileType) (path : List ℕ) (n : ℕ)
    → IsSound fs
    → IsPath path n
    → n < 512
    → Ends (create_at_path type fs path) (λ r. IsSound r.1)
create_at_path-IsSound fs type path n v p l =
    let (dir, name, s) = IsSplit-path path n p l in
    rw (s.whole, create_at_path-split type fs dir name s.last s.fits s.short)
      (add_entry-IsSound fs type dir name v s.short s.names)
