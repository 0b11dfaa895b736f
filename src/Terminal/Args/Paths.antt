-- ===== src/Terminal/Args/Paths.antt =====
-- The path of a command's argument.
use fox_os.Base.{
  ℕ, ◌+◌, ◌<◌, ◌≤◌, ◌≡◌, refl, ap, ◌∙◌, true, false, List, [], ◌∷◌, ◌++◌, append_assoc, ret, fault,
  arith, length, length-append, lt→ltb, le→ltb, if◌then◌else◌, need-ret, Bool-cases, inl, inr,
}
use fox_os.Fs.Lookup.{slash}
use fox_os.Fs.Lookup.Resolve.{components}
use fox_os.Fs.Lookup.Append.{components-slash}
use fox_os.Terminal.Args.{is_absolute, append_path, build_path}

append_path_fits : (a b : List ℕ) → length a + length b < 512 → append_path a b ≡ ret (a ++ b)
append_path_fits a b l = need-ret (lt→ltb (length (a ++ b)) 512 (omega (arith, length-append a b)))

append_path_fault : (a b : List ℕ) → 512 ≤ length a + length b → append_path a b ≡ fault
append_path_fault a b l = rw (le→ltb (length (a ++ b)) 512 (omega (arith, length-append a b))) refl

pub relative_path :
    (d rel : List ℕ)
    → is_absolute rel ≡ false
    → length d + length rel + 2 < 512
    → (full : List ℕ) × (build_path (slash ∷ d) rel ≡ ret full)
      × (components full ≡ components (slash ∷ d) ++ components rel)
      × ((rest : List ℕ) × (full ≡ slash ∷ rest))
      × (length full ≤ length d + length rel + 2)
unfolding build_path components
relative_path [] rel e l = (
  slash ∷ rel,
  rw (e, append_path_fits (slash ∷ []) rel (omega arith)) refl,
  components-slash [] rel,
  (rel, refl),
  omega arith,
)
relative_path (c ∷ d) rel e l =
    let dir = slash ∷ c ∷ d in
    (
      (dir ++ (slash ∷ [])) ++ rel,
      rw
          (
            e,
            append_path_fits [] dir (omega arith),
            append_path_fits dir (slash ∷ []) (omega arith),
            append_path_fits (dir ++ (slash ∷ [])) rel
                (omega (arith, length-append dir (slash ∷ []))),
          )
          refl,
      ap components (append_assoc dir (slash ∷ []) rel) ∙ components-slash dir rel,
      (_, refl),
      omega (arith, length-append (dir ++ (slash ∷ [])) rel, length-append dir (slash ∷ [])),
    )

pub absolute_path :
    (d rel : List ℕ)
    → is_absolute rel ≡ true
    → length rel < 512
    → build_path (slash ∷ d) rel ≡ ret rel
unfolding build_path
absolute_path d rel e l = rw (e, append_path_fits [] rel (omega arith)) refl

-- `build_path` of an argument, in a current directory that is an absolute path, where both with a
-- slash between them fit into 512 bytes: the path has the components of the argument if it begins
-- with a slash, and those of the current directory and of the argument otherwise.
pub build_path-components :
    (d rel : List ℕ)
    → length d + length rel + 2 < 512
    → (full : List ℕ) × (build_path (slash ∷ d) rel ≡ ret full)
      × (components full
          ≡ (if is_absolute rel then components rel else components (slash ∷ d) ++ components rel))
build_path-components d rel l = elim (Bool-cases (is_absolute rel)) [
  | inl e ↦ rw e (rel, absolute_path d rel e (omega arith), refl)
  | inr e ↦ let (full, b, c, _, _) = relative_path d rel e l in rw e (full, b, c)
]

-- Below the root, with a current directory and an argument without a leading slash that together
-- need more, `build_path` writes past the end of `full_path`.
pub build_path_overflow :
    (c : ℕ) (d rel : List ℕ)
    → is_absolute rel ≡ false
    → length (slash ∷ c ∷ d) < 511
    → 511 ≤ length (slash ∷ c ∷ d) + length rel
    → build_path (slash ∷ c ∷ d) rel ≡ fault
unfolding build_path
build_path_overflow c d rel e l h =
    let dir = slash ∷ c ∷ d in
    rw
      (
        e,
        append_path_fits [] dir (omega arith),
        append_path_fits dir (slash ∷ []) (omega arith),
        append_path_fault (dir ++ (slash ∷ [])) rel (omega (arith, length-append dir (slash ∷ []))),
      )
      refl

-- Where the current directory fills its array, there is no room for the slash behind it.
pub build_path_full :
    (c : ℕ) (d rel : List ℕ)
    → is_absolute rel ≡ false
    → length (slash ∷ c ∷ d) ≡ 511
    → build_path (slash ∷ c ∷ d) rel ≡ fault
unfolding build_path
build_path_full c d rel e l =
    let dir = slash ∷ c ∷ d in
    rw (e, append_path_fits [] dir (omega arith), append_path_fault dir (slash ∷ []) (omega arith))
      refl
