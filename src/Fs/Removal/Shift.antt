-- ===== src/Fs/Removal/Shift.antt =====
-- What the two loops of `fs_delete_file` do to the entries in use.
use fox_os.Base.{
  ℕ, zero, suc, ◌+◌, ◌-◌, ◌<◌, ◌≤◌, ◌≡◌, refl, sym, ap, ◌∙◌, List, [], ◌∷◌, ◌++◌, map, some, length,
  arith, take, drop, get_elem?, set, erase_idx, length-map, length-take, length-set, length-append,
  length-drop, get_elem?-take, ltb, if◌then◌else◌, some-get_elem?, Option-cases, inl, inr, none,
  ret, load-get_elem?, store-set,
}
use fox_os.Fs.{File}
use fox_os.Fs.Removal.{copy_next, lower, lower_parents, shift_down}

-- The table after the copy and after the outer loop, where the copies stay inside it.
abbrev pub copied_next : List File → ℕ → List File
copied_next files i = elim (get_elem? files (suc i)) [ none ↦ files | some f ↦ set files i f ]

unfoldable pub shifted_down : ℕ → ℕ → ℕ → List File → List File
shifted_down zero count i files = files
shifted_down (suc rounds) count i files =
    shifted_down rounds count (suc i) (lower_parents count i (copied_next files i))

-- The entries in use, in one round.
abbrev round : ℕ → List File → List File
round i xs = map (lower i) (copied_next xs i)

pub rounds_from : ℕ → ℕ → List File → List File
rounds_from zero i xs = xs
rounds_from (suc r) i xs = rounds_from r (suc i) (round i xs)

take-set : (n : ℕ) (xs : List File) (i : ℕ) (f : File) → take n (set xs i f) ≡ set (take n xs) i f
take-set zero xs i f = refl
take-set (suc n) [] i f = refl
take-set (suc n) (x ∷ xs) zero f = refl
take-set (suc n) (x ∷ xs) (suc i) f = ap (x ∷◌) (take-set n xs i f)

copied_next-set :
    (xs : List File) (i : ℕ) {f : File}
    → get_elem? xs (suc i) ≡ some f
    → copied_next xs i ≡ set xs i f
copied_next-set xs i {f} h = ground arith

take-copied_next :
    (n : ℕ) (files : List File) (i : ℕ)
    → suc i < n
    → n ≤ length files
    → take n (copied_next files i) ≡ copied_next (take n files) i
take-copied_next n files i h k =
    let (f, e) = some-get_elem? files (suc i) (omega arith) in
    ap (take n) (copied_next-set files i e)
    ∙ take-set n files i f
    ∙ sym (copied_next-set (take n files) i (get_elem?-take n files (suc i) h ∙ e))

take-map-append :
    (n : ℕ) (f : File → File) (xs ys : List File)
    → n ≤ length xs
    → take n (map f (take n xs) ++ ys) ≡ map f (take n xs)
take-map-append zero f xs ys h = refl
take-map-append (suc n) f [] ys h = absurd (omega arith)
take-map-append (suc n) f (x ∷ xs) ys h = ap (f x ∷◌) (take-map-append n f xs ys (omega arith))

-- Erasing what has been copied one place down is erasing the place that it went to.
erase_idx-set :
    (xs : List File) (i : ℕ) {f : File}
    → get_elem? xs (suc i) ≡ some f
    → erase_idx (set xs i f) (suc i) ≡ erase_idx xs i
erase_idx-set [] i h = refl
erase_idx-set (x ∷ []) i h = cc
erase_idx-set (x ∷ y ∷ xs) zero h = ground arith
erase_idx-set (x ∷ y ∷ xs) (suc i) h = ap (x ∷◌) (erase_idx-set (y ∷ xs) i h)

erase_idx-copied_next :
    (xs : List File) (i : ℕ)
    → suc i < length xs
    → erase_idx (copied_next xs i) (suc i) ≡ erase_idx xs i
erase_idx-copied_next xs i h =
    let (f, e) = some-get_elem? xs (suc i) h in
    ap (λ ys. erase_idx ys (suc i)) (copied_next-set xs i e) ∙ erase_idx-set xs i e

erase_idx-map :
    (f : File → File) (xs : List File) (i : ℕ) → erase_idx (map f xs) i ≡ map f (erase_idx xs i)
erase_idx-map f [] i = refl
erase_idx-map f (x ∷ xs) zero = refl
erase_idx-map f (x ∷ xs) (suc i) = ap (f x ∷◌) (erase_idx-map f xs i)

erase_idx_last : (xs : List File) (n : ℕ) → length xs ≡ suc n → take n xs ≡ erase_idx xs n
erase_idx_last [] n h = absurd (omega arith)
erase_idx_last (x ∷ []) zero h = refl
erase_idx_last (x ∷ y ∷ xs) zero h = absurd (omega arith)
erase_idx_last (x ∷ xs) (suc n) h = ap (x ∷◌) (erase_idx_last xs n (omega arith))

length-copied_next :
    (xs : List File) (i : ℕ) → suc i < length xs → length (copied_next xs i) ≡ length xs
length-copied_next xs i h =
    let (f, e) = some-get_elem? xs (suc i) h in
    ap length (copied_next-set xs i e) ∙ length-set xs i f

-- One round on the whole table is one on its entries in use.
take-round :
    (n i : ℕ) (files : List File)
    → suc i < n
    → n ≤ length files
    → take n (lower_parents n i (copied_next files i)) ≡ round i (take n files)
take-round n i files h k =
    take-map-append n (lower i) (copied_next files i) _
      (omega (arith, length-copied_next files i (omega arith)))
    ∙ ap (map (lower i)) (take-copied_next n files i h k)

length-lower_parents :
    (n i : ℕ) (files : List File)
    → n ≤ length files
    → length (lower_parents n i files) ≡ length files
length-lower_parents n i files h = omega (
  arith,
  length-append (map (lower i) (take n files)) (drop n files),
  length-map (lower i) (take n files),
  length-take n files,
  length-drop n files,
)

copied_next-length : (xs : List File) (i : ℕ) → length (copied_next xs i) ≡ length xs
copied_next-length xs i = elim (Option-cases (get_elem? xs (suc i))) [
  | inl e ↦ ground (arith, e)
  | inr (f, e) ↦ ap length (copied_next-set xs i e) ∙ length-set xs i f
]

pub length-shifted_down :
    (r n i : ℕ) (files : List File)
    → n ≤ length files
    → length (shifted_down r n i files) ≡ length files
unfolding shifted_down
length-shifted_down zero n i files h = refl
length-shifted_down (suc r) n i files h =
    let e : length (lower_parents n i (copied_next files i)) ≡ length files =
      length-lower_parents n i (copied_next files i) (omega (arith, copied_next-length files i))
      ∙ copied_next-length files i in
    length-shifted_down r n (suc i) (lower_parents n i (copied_next files i)) (omega (arith, e)) ∙ e

copy_next-ret :
    (xs : List File) (i : ℕ) → suc i < length xs → copy_next xs i ≡ ret (copied_next xs i)
copy_next-ret xs i l =
    let (f, e) = some-get_elem? xs (suc i) l in
    rw (load-get_elem? xs (suc i) e, store-set xs i f (omega arith), copied_next-set xs i e) refl

pub shift_down-ret :
    (r n i : ℕ) (files : List File)
    → i + r < length files
    → n ≤ length files
    → shift_down r n i files ≡ ret (shifted_down r n i files)
unfolding shift_down shifted_down
shift_down-ret zero n i files h k = refl
shift_down-ret (suc r) n i files h k =
    let e : length (lower_parents n i (copied_next files i)) ≡ length files =
      length-lower_parents n i (copied_next files i) (omega (arith, copied_next-length files i))
      ∙ copied_next-length files i in
    rw (copy_next-ret files i (omega arith)) (
      shift_down-ret r n (suc i) (lower_parents n i (copied_next files i)) (omega (arith, e))
        (omega (arith, e)))

pub take-shifted_down :
    (r n i : ℕ) (files : List File)
    → i + r < n
    → n ≤ length files
    → take n (shifted_down r n i files) ≡ rounds_from r i (take n files)
unfolding shifted_down rounds_from
take-shifted_down zero n i files h k = refl
take-shifted_down (suc r) n i files h k =
    let len = length-copied_next files i (omega arith) in
    take-shifted_down r n (suc i) (lower_parents n i (copied_next files i)) (omega arith)
      (omega (arith, len, length-lower_parents n i (copied_next files i) (omega arith)))
    ∙ ap (rounds_from r (suc i)) (take-round n i files (omega arith) k)

-- What happens to the parent of an entry over all the rounds.
unfoldable pub lowered : ℕ → ℕ → ℕ → ℕ
lowered zero i p = p
lowered (suc r) i p = lowered r (suc i) (if ltb i p then p - 1 else p)

abbrev pub lower_all : ℕ → ℕ → File → File
lower_all r i f = record f { parent_index = lowered r i f.parent_index }

map-lower_all :
    (r i : ℕ) (xs : List File)
    → map (lower_all r (suc i)) (map (lower i) xs) ≡ map (lower_all (suc r) i) xs
unfolding lowered
map-lower_all r i [] = refl
map-lower_all r i (f ∷ xs) = ground (arith, map-lower_all r i xs)

map-lower_all_zero : (i : ℕ) (xs : List File) → map (lower_all 0 i) xs ≡ xs
unfolding lowered
map-lower_all_zero i [] = refl
map-lower_all_zero i (f ∷ xs) = ap (f ∷◌) (map-lower_all_zero i xs)

-- All the rounds erase one entry, and put every parent through its steps.
pub rounds_from-erase :
    (r i : ℕ) (xs : List File)
    → length xs ≡ suc (i + r)
    → take (i + r) (rounds_from r i xs) ≡ map (lower_all r i) (erase_idx xs i)
unfolding rounds_from
rounds_from-erase zero i xs h =
    let e : i + 0 ≡ i = omega arith in
    rw (e, map-lower_all_zero) (erase_idx_last xs i (omega arith))
rounds_from-erase (suc r) i xs h =
    let e : i + suc r ≡ suc i + r = omega arith in
    let fit : suc i < length xs = omega arith in
    rw e (
      rounds_from-erase r (suc i) (round i xs)
        (omega (arith, length-map (lower i) (copied_next xs i), length-copied_next xs i fit))
      ∙ ap (map (lower_all r (suc i))) (
          erase_idx-map (lower i) (copied_next xs i) (suc i)
          ∙ ap (map (lower i)) (erase_idx-copied_next xs i fit))
      ∙ map-lower_all r i (erase_idx xs i))
