-- ===== src/Fs/Removal/Reindex.antt =====
-- When `fs_delete_file` moves every parent by one, and when it moves one too far.
use fox_os.Base.{
  ℕ, zero, suc, ◌+◌, ◌-◌, ◌<◌, ◌≤◌, ◌≡◌, ◌≢◌, refl, sym, ap, ◌∙◌, false, List, [], ◌∷◌, map, some,
  ret, ◌&&◌, length, arith, take, get_elem?, erase_idx, length-take, ltb, if◌then◌else◌, All,
}
use fox_os.Fs.{File, Fs, live, dir_at}
use fox_os.Fs.Removal.{lower, has_child, delete_file_at}
use fox_os.Fs.Removal.Shift.{
  lowered, lower_all, shifted_down, shift_down-ret, take-shifted_down, rounds_from-erase,
  rounds_from,
}

-- What the function means to leave: the entry is gone, and a parent behind it has moved by one.
abbrev pub without : ℕ → List File → List File
without index files = map (lower index) (erase_idx files index)

take-take : (m n : ℕ) (xs : List File) → m ≤ n → take m (take n xs) ≡ take m xs
take-take zero n xs h = refl
take-take (suc m) zero xs h = absurd (omega arith)
take-take (suc m) (suc n) [] h = refl
take-take (suc m) (suc n) (x ∷ xs) h = ap (x ∷◌) (take-take m n xs (omega arith))

-- The file system after `fs_delete_file` of an entry that may be removed.
abbrev pub removed : Fs → ℕ → Fs
removed fs k = record {
  files = shifted_down (fs.file_count - 1 - suc k) fs.file_count (suc k) fs.files;
  file_count = fs.file_count - 1;
}

module _ (fs : Fs) (k : ℕ) (l : suc k < fs.file_count) (fit : fs.file_count ≤ length fs.files) where
  pub delete_file_at-ret :
      (dir_at fs.files (suc k) && has_child (live fs) (suc k)) ≡ false
      → delete_file_at fs (some (suc k)) ≡ ret (some 0, removed fs k)
  unfolding delete_file_at
  delete_file_at-ret h =
      rw
        (
          h,
          shift_down-ret (fs.file_count - 1 - suc k) fs.file_count (suc k) fs.files (omega arith)
              fit,
        )
        refl

  -- The entry is gone, and each parent has been through all the rounds.
  pub removed-live :
      live (removed fs k)
      ≡ map (lower_all (fs.file_count - 1 - suc k) (suc k)) (erase_idx (live fs) (suc k))
  removed-live =
      let r = fs.file_count - 1 - suc k in
      let e : fs.file_count - 1 ≡ suc k + r = omega arith in
      sym (
        take-take (fs.file_count - 1) fs.file_count (shifted_down r fs.file_count (suc k) fs.files)
          (omega arith))
      ∙ ap (take (fs.file_count - 1))
          (take-shifted_down r fs.file_count (suc k) fs.files (omega arith) fit)
      ∙ ap (λ n. take n (rounds_from r (suc k) (live fs))) e
      ∙ rounds_from-erase r (suc k) (live fs) (omega (arith, length-take fs.file_count fs.files))

lowered_below : (r i p : ℕ) → p ≤ i → lowered r i p ≡ p
unfolding lowered
lowered_below zero i p h = refl
lowered_below (suc r) i p h = ground (arith, lowered_below r (suc i) p)

lowered_near : (r i p : ℕ) → p ≤ i + 2 → p ≤ i + r → lowered r i p ≡ (if ltb i p then p - 1 else p)
unfolding lowered
lowered_near zero i p h k = ground arith
lowered_near (suc r) i p h k =
    ground (arith, lowered_below r (suc i) (p - 1), lowered_below r (suc i) p)

lowered-le : (r i p : ℕ) → lowered r i p ≤ p
unfolding lowered
lowered-le zero i p = omega arith
lowered-le (suc r) i p = ground (arith, lowered-le r (suc i) (p - 1), lowered-le r (suc i) p)

lowered_far : (r i p : ℕ) → i + 3 ≤ p → p ≤ i + r → lowered r i p + 2 ≤ p
unfolding lowered
lowered_far zero i p h k = absurd (omega arith)
lowered_far (suc zero) i p h k = absurd (omega arith)
lowered_far (suc (suc r)) i p h k = ground (arith, lowered-le r (suc (suc i)) (p - 1 - 1))

map-lower_near :
    (r i n : ℕ) (xs : List File)
    → n ≤ suc (i + r)
    → All (λ f. (f.parent_index ≤ i + 2) × (f.parent_index < n)) xs
    → map (lower_all r i) xs ≡ map (lower i) xs
map-lower_near r i n [] l h = refl
map-lower_near r i n (f ∷ xs) l h = ground (
  arith,
  lowered_near r i f.parent_index h.0.0 (omega (arith, h.0.1)),
  map-lower_near r i n xs l h.1,
)

get_elem?-map :
    (g : File → File) (xs : List File) (j : ℕ) {f : File}
    → get_elem? xs j ≡ some f
    → get_elem? (map g xs) j ≡ some (g f)
get_elem?-map g [] j h = cc
get_elem?-map g (x ∷ xs) zero h = cc
get_elem?-map g (x ∷ xs) (suc j) h = get_elem?-map g xs j h

-- `fs_delete_file` of an entry that is not the root, nor a directory with entries, removes it and
-- moves every parent behind it by one, keeping all else, if no parent that stays is an entry more
-- than two places behind the removed one.
pub delete_file_correct :
    (fs : Fs) (k : ℕ)
    → suc k < fs.file_count
    → fs.file_count ≤ length fs.files
    → (dir_at fs.files (suc k) && has_child (live fs) (suc k)) ≡ false
    → All
        (λ f. (f.parent_index ≤ suc k + 2) × (f.parent_index < fs.file_count))
        (erase_idx (live fs) (suc k))
    → (fs' : Fs) × (delete_file_at fs (some (suc k)) ≡ ret (some 0, fs'))
      × (fs'.file_count ≡ fs.file_count - 1)
      × (live fs' ≡ without (suc k) (live fs))
delete_file_correct fs k l fit h near =
    let r = fs.file_count - 1 - suc k in
    (
      removed fs k,
      delete_file_at-ret fs k l fit h,
      refl,
      removed-live fs k l fit
          ∙ map-lower_near r (suc k) fs.file_count (erase_idx (live fs) (suc k)) (omega arith) near,
    )

-- `fs_delete_file` of an entry in use that is not the root, nor a directory with entries: where an
-- entry that stays has its parent, an entry in use, three or more places behind the removed one, it
-- moves that parent down by two or more, though the parent itself has moved by
-- one: the entries in use are not those that the function means to leave.
pub delete_file_misplaces :
    (fs : Fs) (k j : ℕ) (f : File)
    → suc k < fs.file_count
    → fs.file_count ≤ length fs.files
    → (dir_at fs.files (suc k) && has_child (live fs) (suc k)) ≡ false
    → get_elem? (erase_idx (live fs) (suc k)) j ≡ some f
    → suc k + 3 ≤ f.parent_index
    → f.parent_index < fs.file_count
    → (fs' : Fs) × (delete_file_at fs (some (suc k)) ≡ ret (some 0, fs'))
      × (g : File) × (get_elem? (live fs') j ≡ some g)
      × (g.parent_index + 2 ≤ f.parent_index)
      × (live fs' ≢ without (suc k) (live fs))
delete_file_misplaces fs k j f l fit h e far below =
    let r = fs.file_count - 1 - suc k in
    let fs' = removed fs k in
    let g = lower_all r (suc k) f in
    let at : get_elem? (live fs') j ≡ some g =
      ap (λ xs. get_elem? xs j) (removed-live fs k l fit)
      ∙ get_elem?-map (lower_all r (suc k)) (erase_idx (live fs) (suc k)) j e in
    let low : g.parent_index + 2 ≤ f.parent_index =
      lowered_far r (suc k) f.parent_index far (omega arith) in
    (
      fs',
      delete_file_at-ret fs k l fit h,
      g,
      at,
      low,
      λ same. ground (
        arith,
        ap (λ xs. get_elem? xs j) same,
        get_elem?-map (lower (suc k)) (erase_idx (live fs) (suc k)) j e,
      ),
    )
