-- ===== src/Fs/View/Names.antt =====
-- The components of a path are names.
use fox_os.Base.{ℕ, ◌≢◌, List, [], ◌∷◌, All, ◌==◌, Bool-cases, inl, inr}
use fox_os.Fs.Lookup.{slash}
use fox_os.Fs.Lookup.Resolve.{extend, split, nonempty, components}
use fox_os.Fs.View.{IsName}
use fox_os.Text.{IsText}

extend-IsText : (c : ℕ) (ps : List (List ℕ)) → c ≢ 0 → All IsText ps → All IsText (extend c ps)
extend-IsText c [] n h = ((n, tt), tt)
extend-IsText c (p ∷ ps) n h = ((n, h.0), h.1)

split-IsText : (path : List ℕ) → IsText path → All IsText (split path)
split-IsText [] h = (tt, tt)
split-IsText (c ∷ path) h = elim (Bool-cases (c == slash)) [
  | inl e ↦ rw e (tt, split-IsText path h.1)
  | inr e ↦ rw e (extend-IsText c (split path) h.0 (split-IsText path h.1))
]

nonempty-IsName : (ps : List (List ℕ)) → All IsText ps → All IsName (nonempty ps)
nonempty-IsName [] h = tt
nonempty-IsName ([] ∷ ps) h = nonempty-IsName ps h.1
nonempty-IsName ((c ∷ p) ∷ ps) h =
    (record { some_byte = λ e. cc; text = h.0 }, nonempty-IsName ps h.1)

pub components-IsName : (path : List ℕ) → IsText path → All IsName (components path)
unfolding components
components-IsName path h = nonempty-IsName (split path) (split-IsText path h)
