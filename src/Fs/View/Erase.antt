-- ===== src/Fs/View/Erase.antt =====
-- A list without one of its elements, index by index.
use fox_os.Base.{
  ℕ, zero, suc, ◌-◌, ◌<◌, ◌≤◌, ◌≡◌, ◌≢◌, refl, sym, ap, ◌∙◌, List, [], ◌∷◌, map, none, some, arith,
  get_elem?, erase_idx, ltb, if◌then◌else◌,
}
use fox_os.Fs.{File}
use fox_os.Fs.Removal.{lower}

-- The old index of the element at an index of the shorter list, and back.
unfoldable pub raise : ℕ → ℕ → ℕ
raise zero i = suc i
raise (suc k) zero = zero
raise (suc k) (suc i) = suc (raise k i)

unfoldable pub sink : ℕ → ℕ → ℕ
sink zero zero = zero
sink zero (suc j) = j
sink (suc k) zero = zero
sink (suc k) (suc j) = suc (sink k j)

pub raise-ne : (k i : ℕ) → raise k i ≢ k
unfolding raise
raise-ne zero i e = omega arith
raise-ne (suc k) zero e = omega arith
raise-ne (suc k) (suc i) e = raise-ne k i (omega arith)

pub sink-raise : (k i : ℕ) → sink k (raise k i) ≡ i
unfolding raise sink
sink-raise zero i = refl
sink-raise (suc k) zero = refl
sink-raise (suc k) (suc i) = ap suc (sink-raise k i)

pub raise-sink : (k j : ℕ) → j ≢ k → raise k (sink k j) ≡ j
unfolding raise sink
raise-sink zero zero n = absurd (n refl)
raise-sink zero (suc j) n = refl
raise-sink (suc k) zero n = refl
raise-sink (suc k) (suc j) n = ap suc (raise-sink k j (λ e. n (ap suc e)))

pub sink_inj : (k i j : ℕ) → i ≢ k → j ≢ k → sink k i ≡ sink k j → i ≡ j
sink_inj k i j n m e = sym (raise-sink k i n) ∙ ap (raise k) e ∙ raise-sink k j m

pub sink-if : (k j : ℕ) → j ≢ k → sink k j ≡ (if ltb k j then j - 1 else j)
unfolding sink
sink-if zero zero n = absurd (n refl)
sink-if zero (suc j) n = ground arith
sink-if (suc k) zero n = ground arith
sink-if (suc k) (suc j) n = ground (arith, sink-if k j (λ e. n (ap suc e)))

pub sink-le : (k j : ℕ) → sink k j ≤ j
unfolding sink
sink-le zero zero = omega arith
sink-le zero (suc j) = omega arith
sink-le (suc k) zero = omega arith
sink-le (suc k) (suc j) = omega (arith, sink-le k j)

pub sink-lt : (k i j : ℕ) → i ≢ k → j ≢ k → i < j → sink k i < sink k j
unfolding sink
sink-lt zero zero j n m l = absurd (n refl)
sink-lt zero (suc i) zero n m l = absurd (omega arith)
sink-lt zero (suc i) (suc j) n m l = omega arith
sink-lt (suc k) i zero n m l = absurd (omega arith)
sink-lt (suc k) zero (suc j) n m l = omega arith
sink-lt (suc k) (suc i) (suc j) n m l =
    omega (arith, sink-lt k i j (λ e. n (ap suc e)) (λ e. m (ap suc e)))

module _ {ℓ} {A : Type ℓ} where
  pub get_elem?-erase :
      (xs : List A) (k i : ℕ) → get_elem? (erase_idx xs k) i ≡ get_elem? xs (raise k i)
  unfolding raise
  get_elem?-erase [] k i = refl
  get_elem?-erase (x ∷ xs) zero i = refl
  get_elem?-erase (x ∷ xs) (suc k) zero = refl
  get_elem?-erase (x ∷ xs) (suc k) (suc i) = get_elem?-erase xs k i

pub get_elem?-map :
    (g : File → File) (xs : List File) (i : ℕ)
    → get_elem? (map g xs) i ≡ elim (get_elem? xs i) [ none ↦ none | some f ↦ some (g f) ]
get_elem?-map g [] i = refl
get_elem?-map g (x ∷ xs) zero = refl
get_elem?-map g (x ∷ xs) (suc i) = get_elem?-map g xs i

-- The parent of a moved entry.
pub lower-parent :
    (k : ℕ) (f : File) → f.parent_index ≢ k → (lower k f).parent_index ≡ sink k f.parent_index
lower-parent k f n = ground (arith, sink-if k f.parent_index n)

pub lower-name : (k : ℕ) (f : File) → (lower k f).name ≡ f.name
lower-name k f = ground arith
