-- ===== src/Fs/Lookup/Append.antt =====
-- Path resolution of a name behind a directory, and in a table that has grown.
use fox_os.Base.{
  ℕ, ◌≡◌, ◌≢◌, refl, ap, ◌∙◌, List, [], ◌∷◌, ◌++◌, some, arith, ne→==, Option-cases, inl, inr,
}
use fox_os.Fs.{Fs, find_child}
use fox_os.Fs.Lookup.{slash}
use fox_os.Fs.Lookup.Resolve.{extend, split, nonempty, components, resolve}

abbrev pub NoSlash : List ℕ → Type 0
NoSlash [] = Unit
NoSlash (c ∷ s) = (c ≢ slash) × NoSlash s

split-NoSlash : (name : List ℕ) → NoSlash name → split name ≡ name ∷ []
split-NoSlash [] h = refl
split-NoSlash (c ∷ name) h = ground (arith, ne→== c slash h.0, split-NoSlash name h.1)

extend-append : (c : ℕ) (ps qs : List (List ℕ)) → ps ≢ [] → extend c (ps ++ qs) ≡ extend c ps ++ qs
extend-append c [] qs h = absurd (h refl)
extend-append c (p ∷ ps) qs h = refl

split-ne-nil : (path : List ℕ) → split path ≢ []
split-ne-nil [] = λ e. cc
split-ne-nil (c ∷ path) = ground (arith, split-ne-nil path)

split-append : (a b : List ℕ) → split (a ++ (slash ∷ b)) ≡ split a ++ split b
split-append [] b = refl
split-append (c ∷ a) b =
    ground (arith, split-append a b, extend-append c (split a) (split b) (split-ne-nil a))

nonempty-append : (ps qs : List (List ℕ)) → nonempty (ps ++ qs) ≡ nonempty ps ++ nonempty qs
nonempty-append [] qs = refl
nonempty-append ([] ∷ ps) qs = nonempty-append ps qs
nonempty-append ((c ∷ p) ∷ ps) qs = ap ((c ∷ p) ∷◌) (nonempty-append ps qs)

-- The components of a path that goes on behind a slash.
pub components-slash : (a b : List ℕ) → components (a ++ (slash ∷ b)) ≡ components a ++ components b
unfolding components
components-slash a b = ap nonempty (split-append a b) ∙ nonempty-append (split a) (split b)

pub components-append :
    (dir : List ℕ) (c : ℕ) (name : List ℕ)
    → NoSlash (c ∷ name)
    → components (dir ++ (slash ∷ c ∷ name)) ≡ components dir ++ ((c ∷ name) ∷ [])
unfolding components
components-append dir c name h =
    ap nonempty (split-append dir (c ∷ name))
    ∙ nonempty-append (split dir) (split (c ∷ name))
    ∙ ap (λ ps. nonempty (split dir) ++ nonempty ps) (split-NoSlash (c ∷ name) h)

-- In a table in which all that was found still is, what a walk reached it still reaches, and a name
-- found there is reached behind it.
pub resolve-append :
    (fs fs' : Fs) (i : ℕ) (names : List (List ℕ)) (name : List ℕ) {j k : ℕ}
    → ((q : ℕ) (m : List ℕ) (l : ℕ) → find_child fs q m ≡ some l → find_child fs' q m ≡ some l)
    → resolve fs i names ≡ some j
    → find_child fs' j name ≡ some k
    → resolve fs' i (names ++ (name ∷ [])) ≡ some k
unfolding resolve
resolve-append fs fs' i [] name {j} {k} grown h f = ground arith
resolve-append fs fs' i (n ∷ names) name {j} {k} grown h f =
    elim (Option-cases (find_child fs i n)) [
      | inl e ↦ absurd (ground arith)
      | inr (l, e) ↦
          let rest : resolve fs l names ≡ some j = ground arith in
          ground (arith, grown i n l e, resolve-append fs fs' l names name grown rest f)
    ]
