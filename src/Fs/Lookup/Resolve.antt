-- ===== src/Fs/Lookup/Resolve.antt =====
-- Path resolution against a description by the components of a path.
use fox_os.Base.{
  ℕ, zero, suc, ◌+◌, ◌<◌, ◌≤◌, ◌≡◌, refl, true, List, [], ◌∷◌, ◌++◌, Option, none, some, Run, ret,
  fault, ◌==◌, if◌then◌else◌, length, All, arith, sym, ◌∙◌, ap, Option-cases, Bool-cases, need-ret,
  lt→ltb, ◌≢◌, inl, inr,
}
use fox_os.Fs.{max_filename, Fs, find_child}
use fox_os.Fs.Lookup.{
  slash, skip_slashes, copy_component, or_null, get_next_path_component, walk, is_root_path,
  fs_parse_path,
}

-- A byte put in front of the first piece.
abbrev pub extend : ℕ → List (List ℕ) → List (List ℕ)
extend c [] = (c ∷ []) ∷ []
extend c (p ∷ ps) = (c ∷ p) ∷ ps

-- The pieces between the slashes of a path, the empty ones too.
abbrev pub split : List ℕ → List (List ℕ)
split [] = [] ∷ []
split (c ∷ path) = if c == slash then [] ∷ split path else extend c (split path)

abbrev pub nonempty : List (List ℕ) → List (List ℕ)
nonempty [] = []
nonempty ([] ∷ ps) = nonempty ps
nonempty ((c ∷ p) ∷ ps) = (c ∷ p) ∷ nonempty ps

-- What a path means: the pieces that are not empty, in order.
unfoldable pub components : List ℕ → List (List ℕ)
components path = nonempty (split path)

-- The walk from a directory down a list of names.
unfoldable pub resolve : Fs → ℕ → List (List ℕ) → Option ℕ
resolve fs i [] = some i
resolve fs i (name ∷ names) = elim (find_child fs i name) [
  | none ↦ none
  | some j ↦ resolve fs j names
]

abbrev pub IsShort : List ℕ → Type 0
IsShort name = length name < max_filename

components-skip_slashes : (path : List ℕ) → components (skip_slashes path) ≡ components path
unfolding components
components-skip_slashes [] = refl
components-skip_slashes (c ∷ path) = ground (arith, components-skip_slashes path)

-- What the copying loop takes and leaves are the first piece and the others.
split-copy_component :
    (path : List ℕ)
    → split path
      ≡ (copy_component path).0 ∷ elim (copy_component path).1 [ [] ↦ [] | c ∷ rest ↦ split rest ]
split-copy_component [] = refl
split-copy_component (c ∷ path) = ground (arith, split-copy_component path)

-- The components of what the copying loop leaves.
abbrev components_left : List ℕ → List (List ℕ)
components_left [] = []
components_left (c ∷ rest) = nonempty (split (c ∷ rest))

copy_component-slash :
    (path : List ℕ) {c : ℕ} {rest : List ℕ} → (copy_component path).1 ≡ c ∷ rest → c ≡ slash
copy_component-slash [] h = cc
copy_component-slash (c ∷ path) {c = d} {rest} h =
    ground (arith, copy_component-slash path {c = d} {rest = rest})

length-copy_component :
    (path : List ℕ) → length (copy_component path).0 + length (copy_component path).1 ≡ length path
length-copy_component [] = omega arith
length-copy_component (c ∷ path) = ground (arith, length-copy_component path)

length-skip_slashes : (path : List ℕ) → length (skip_slashes path) ≤ length path
length-skip_slashes [] = omega arith
length-skip_slashes (c ∷ path) = ground (arith, length-skip_slashes path)

-- An empty component is met at the end of the path only.
empty_component :
    (path : List ℕ)
    → (copy_component (skip_slashes path)).0 ≡ []
    → (copy_component (skip_slashes path)).1 ≡ []
empty_component [] h = refl
empty_component (c ∷ path) h = ground (arith, empty_component path)

nonempty_step :
    (comp left : List ℕ)
    → ((c : ℕ) (rest : List ℕ) → left ≡ c ∷ rest → c ≡ slash)
    → nonempty (comp ∷ elim left [ [] ↦ [] | c ∷ rest ↦ split rest ])
      ≡ nonempty (comp ∷ []) ++ components_left left
nonempty_step [] [] h = refl
nonempty_step [] (c ∷ rest) h = ground (arith, h c rest refl)
nonempty_step (x ∷ comp) [] h = refl
nonempty_step (x ∷ comp) (c ∷ rest) h = ground (arith, h c rest refl)

-- The components of a path are the one that is copied next, unless it is empty, and those of what
-- is left.
components_step :
    (path : List ℕ)
    → components path
      ≡ nonempty ((copy_component (skip_slashes path)).0 ∷ [])
        ++ components_left (copy_component (skip_slashes path)).1
unfolding components
components_step path =
    sym (components-skip_slashes path)
    ∙ ap nonempty (split-copy_component (skip_slashes path))
    ∙ nonempty_step _ _ (λ c rest. copy_component-slash (skip_slashes path))

-- One round, given what the rest of the walk does.
walk_step :
    (fuel : ℕ) (fs : Fs) (current : ℕ) (path comp left : List ℕ)
    → get_next_path_component path ≡ ret (comp, or_null left)
    → components path ≡ nonempty (comp ∷ []) ++ components_left left
    → (comp ≡ [] → left ≡ [])
    → ((c : ℕ) (rest : List ℕ) (i : ℕ)
        → left ≡ c ∷ rest
        → walk fuel fs i left ≡ ret (resolve fs i (components left)))
    → walk (suc fuel) fs current path ≡ ret (resolve fs current (components path))
unfolding walk resolve components
walk_step fuel fs current path [] [] e c n ih = rw (e, c)
walk_step fuel fs current path [] (d ∷ rest) e c n ih = absurd (cc (n refl))
walk_step fuel fs current path (x ∷ comp) [] e c n ih = rw (e, c) (ground arith)
walk_step fuel fs current path (x ∷ comp) (d ∷ rest) e c n ih =
    rw (e, c)
      (elim (Option-cases (find_child fs current (x ∷ comp))) [
        | inl f ↦ ground arith
        | inr (i, f) ↦ ground (arith, ih d rest i refl)
      ])

-- What a round needs of the component that it copies, and what the next rounds need.
component-IsShort :
    (comp : List ℕ) (names : List (List ℕ))
    → All IsShort (nonempty (comp ∷ []) ++ names)
    → IsShort comp × All IsShort names
component-IsShort [] names h = (omega arith, h)
component-IsShort (x ∷ comp) names h = h

components_left-cons :
    (left : List ℕ) {c : ℕ} {rest : List ℕ}
    → left ≡ c ∷ rest
    → components_left left ≡ components left
unfolding components
components_left-cons [] h = cc
components_left-cons (d ∷ left) h = refl

nonempty_component : (comp left : List ℕ) → (comp ≡ [] → left ≡ []) → left ≢ [] → 0 < length comp
nonempty_component [] left h n = absurd (n (h refl))
nonempty_component (x ∷ comp) left h n = omega arith

walk_lem :
    (fuel : ℕ) (fs : Fs) (current : ℕ) (path : List ℕ)
    → length path < fuel
    → All IsShort (components path)
    → walk fuel fs current path ≡ ret (resolve fs current (components path))
unfolding get_next_path_component
walk_lem zero fs current path l h = absurd (omega arith)
walk_lem (suc fuel) fs current path l h =
    let comp = (copy_component (skip_slashes path)).0 in
    let left = (copy_component (skip_slashes path)).1 in
    let short = component-IsShort comp (components_left left) (rw components_step at h) in
    walk_step fuel fs current path comp left (need-ret (lt→ltb _ _ short.0)) (components_step path)
      (empty_component path)
      (λ c rest i e.
        walk_lem fuel fs i left
          (omega (
            arith,
            nonempty_component comp left (empty_component path) (λ n. cc),
            length-copy_component (skip_slashes path),
            length-skip_slashes path,
          ))
          (rw (components_left-cons left e) at short.1))

is_root_path-components : (path : List ℕ) → is_root_path path ≡ true → components path ≡ []
unfolding components
is_root_path-components [] h = refl
is_root_path-components (c ∷ []) h = ground arith
is_root_path-components (c ∷ d ∷ path) h = cc

-- `fs_parse_path` reaches the entry that the components of the path name one after the other from
-- the root, or reports that one is missing; it ends, and writes past no buffer, for every path
-- whose components are shorter than 256 bytes.
pub parse_path_resolves :
    (fs : Fs) (path : List ℕ)
    → All IsShort (components path)
    → fs_parse_path fs path ≡ ret (resolve fs 0 (components path))
unfolding fs_parse_path resolve
parse_path_resolves fs path h = elim (Bool-cases (is_root_path path)) [
  | inl r ↦ rw (r, is_root_path-components path r)
  | inr r ↦ rw r (walk_lem (suc (length path)) fs 0 path (omega arith) h)
]

-- The walk sees the table through the lookup of names only.
module _ (fs fs' : Fs) (same : (q : ℕ) (m : List ℕ) → find_child fs q m ≡ find_child fs' q m) where
  walk_cong_step :
      (fuel current : ℕ) (path : List ℕ) (r : Run (List ℕ × Option (List ℕ)))
      → get_next_path_component path ≡ r
      → ((i : ℕ) (p : List ℕ) → walk fuel fs i p ≡ walk fuel fs' i p)
      → walk (suc fuel) fs current path ≡ walk (suc fuel) fs' current path
  unfolding walk
  walk_cong_step fuel current path fault e ih = rw e
  walk_cong_step fuel current path (ret ([], none)) e ih = rw e
  walk_cong_step fuel current path (ret ([], some p)) e ih = rw e (ih current p)
  walk_cong_step fuel current path (ret (c ∷ cs, none)) e ih = ground (arith, same current (c ∷ cs))
  walk_cong_step fuel current path (ret (c ∷ cs, some p)) e ih =
      elim (Option-cases (find_child fs current (c ∷ cs))) [
        | inl f ↦ ground (arith, same current (c ∷ cs))
        | inr (i, f) ↦ ground (arith, same current (c ∷ cs), ih i p)
      ]

  walk_cong :
      (fuel current : ℕ) (path : List ℕ) → walk fuel fs current path ≡ walk fuel fs' current path
  unfolding walk
  walk_cong zero current path = refl
  walk_cong (suc fuel) current path =
      walk_cong_step fuel current path _ refl (λ i p. walk_cong fuel i p)

pub parse_path_cong :
    (fs fs' : Fs) (path : List ℕ)
    → ((q : ℕ) (m : List ℕ) → find_child fs q m ≡ find_child fs' q m)
    → fs_parse_path fs path ≡ fs_parse_path fs' path
unfolding fs_parse_path
parse_path_cong fs fs' path same = rw (walk_cong fs fs' same (suc (length path)) 0 path)
