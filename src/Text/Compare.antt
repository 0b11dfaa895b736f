-- ===== src/Text/Compare.antt =====
-- What `strcmp` and `strncmp` decide.
use fox_os.Base.{ℕ, zero, suc, ◌≡◌, sym, ◌∙◌, ◌↔◌, refl, ap, true, List, [], ◌∷◌, arith, take}
use fox_os.Text.{strcmp, strncmp, is_zero, IsText, Holds}

pub strcmp_self : (s : List ℕ) → is_zero (strcmp s s) ≡ true
unfolding strcmp
strcmp_self [] = refl
strcmp_self (x ∷ s) = ground (arith, strcmp_self s)

pub strcmp_sound : (s t : List ℕ) → IsText s → IsText t → is_zero (strcmp s t) ≡ true → s ≡ t
unfolding strcmp
strcmp_sound [] [] p q h = refl
strcmp_sound [] (y ∷ t) p q h = ground arith
strcmp_sound (x ∷ s) [] p q h = ground arith
strcmp_sound (x ∷ s) (y ∷ t) p q h = ground (arith, strcmp_sound s t)

-- A comparison of two objects is one of the texts that they hold.
pub strcmp-Holds : (m n : List ℕ) (s t : List ℕ) → Holds m s → Holds n t → strcmp m n ≡ strcmp s t
unfolding strcmp
strcmp-Holds [] n s t h k = absurd h
strcmp-Holds (c ∷ m) [] s t h k = absurd k
strcmp-Holds (c ∷ m) (d ∷ n) [] [] h k = ground arith
strcmp-Holds (c ∷ m) (d ∷ n) [] (y ∷ t) h k = ground arith
strcmp-Holds (c ∷ m) (d ∷ n) (x ∷ s) [] h k = ground arith
strcmp-Holds (c ∷ m) (d ∷ n) (x ∷ s) (y ∷ t) h k = ground (arith, strcmp-Holds m n s t)

pub Holds-IsText : (m s : List ℕ) → Holds m s → IsText s
Holds-IsText [] s h = absurd h
Holds-IsText (c ∷ m) [] h = tt
Holds-IsText (c ∷ m) (x ∷ s) h = (h.1, Holds-IsText m s h.2)

-- `strcmp` of two objects that hold texts is 0 exactly when the texts are equal, whatever stands
-- behind their NUL bytes.
pub strcmp_decides :
    (m n s t : List ℕ) → Holds m s → Holds n t → (is_zero (strcmp m n) ≡ true) ↔ (s ≡ t)
strcmp_decides m n s t h k = (
  λ e.
      strcmp_sound s t (Holds-IsText m s h) (Holds-IsText n t k)
        (ap is_zero (sym (strcmp-Holds m n s t h k)) ∙ e),
  λ e. ap is_zero (strcmp-Holds m n s t h k) ∙ rw e (strcmp_self t),
)

strncmp_sound :
    (s t : List ℕ) (n : ℕ)
    → IsText s
    → IsText t
    → is_zero (strncmp s t n) ≡ true
    → take n s ≡ take n t
unfolding strncmp
strncmp_sound s t zero p q h = refl
strncmp_sound [] [] (suc n) p q h = refl
strncmp_sound [] (y ∷ t) (suc n) p q h = ground arith
strncmp_sound (x ∷ s) [] (suc n) p q h = ground arith
strncmp_sound (x ∷ s) (y ∷ t) (suc n) p q h = ground (arith, strncmp_sound s t n)

strncmp_complete :
    (s t : List ℕ) (n : ℕ) → IsText s → take n s ≡ take n t → is_zero (strncmp s t n) ≡ true
unfolding strncmp
strncmp_complete s t zero p h = refl
strncmp_complete [] [] (suc n) p h = refl
strncmp_complete [] (y ∷ t) (suc n) p h = cc
strncmp_complete (x ∷ s) [] (suc n) p h = cc
strncmp_complete (x ∷ s) (y ∷ t) (suc n) p h = ground (arith, strncmp_complete s t n p.1)

-- `strncmp` compares the first `n` bytes only: of texts it is 0 exactly when their first `n` bytes
-- agree.
strncmp_decides :
    (s t : List ℕ) (n : ℕ)
    → IsText s
    → IsText t
    → (is_zero (strncmp s t n) ≡ true) ↔ (take n s ≡ take n t)
strncmp_decides s t n p q = (strncmp_sound s t n p q, strncmp_complete s t n p)

-- The order of the arguments does not matter for the test.
pub strcmp_symm : (s t : List ℕ) → is_zero (strcmp s t) ≡ true → is_zero (strcmp t s) ≡ true
unfolding strcmp
strcmp_symm [] [] h = refl
strcmp_symm [] (y ∷ t) h = ground arith
strcmp_symm (x ∷ s) [] h = ground arith
strcmp_symm (x ∷ s) (y ∷ t) h = ground (arith, strcmp_symm s t)
