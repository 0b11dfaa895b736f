-- ===== src/Text.antt =====
-- The string functions of src/fs.c. A `char*` is the list of the bytes from it to the end of its
-- object; a function that writes returns the object anew, and an access past the end is a fault.
pub mod Compare
pub mod Copy
pub mod Tests
use fox_os.Base.{
  ℕ, zero, suc, ◌%◌, ◌^◌, ◌≢◌, ◌≡◌, Bool, true, false, not, ◌&&◌, List, [], ◌∷◌, ◌++◌, Run, ret,
  fault, ◌>>=◌, ◌==◌, if◌then◌else◌, take, drop,
}
use fox_os.Base.Int.{ℤ, pos, negsuc, sub_ℕ}

-- The number of bytes before the first NUL.
pub scan : List ℕ → Run ℕ
scan [] = fault
scan (c ∷ s) = if c == 0 then ret 0 else scan s >>= λ n. ret (suc n)

-- The pointer difference is returned as a `uint32_t`.
pub strlen : List ℕ → Run ℕ
unfolding scan
strlen str = scan str >>= λ n. ret (n % 2 ^ 32)

pub strcpy : List ℕ → List ℕ → Run (List ℕ)
strcpy dest [] = fault
strcpy [] (c ∷ src) = fault
strcpy (d ∷ dest) (c ∷ src) =
    if c == 0 then ret (0 ∷ dest) else strcpy dest src >>= λ r. ret (c ∷ r)

pub strcat : List ℕ → List ℕ → Run (List ℕ)
strcat dest src = do n ← strlen dest; tail ← strcpy (drop n dest) src; ret (take n dest ++ tail)

-- The second loop of `strncpy`: NUL bytes up to the count.
pub zero_fill : List ℕ → ℕ → Run (List ℕ)
zero_fill dest zero = ret dest
zero_fill [] (suc n) = fault
zero_fill (d ∷ dest) (suc n) = zero_fill dest n >>= λ r. ret (0 ∷ r)

pub strncpy : List ℕ → List ℕ → ℕ → Run (List ℕ)
unfolding zero_fill
strncpy dest src zero = ret dest
strncpy dest [] (suc n) = fault
strncpy [] (c ∷ src) (suc n) = fault
strncpy (d ∷ dest) (c ∷ src) (suc n) =
    if c == 0 then zero_fill (d ∷ dest) (suc n) else strncpy dest src n >>= λ r. ret (c ∷ r)

-- The byte that a pointer points to; the end of a list stands for the NUL behind a text.
abbrev pub byte : List ℕ → ℕ
byte [] = 0
byte (c ∷ s) = c

unfoldable pub strcmp : List ℕ → List ℕ → ℤ
strcmp [] t = sub_ℕ 0 (byte t)
strcmp (x ∷ s) [] = sub_ℕ x 0
strcmp (x ∷ s) (y ∷ t) = if not (x == 0) && (x == y) then strcmp s t else sub_ℕ x y

unfoldable pub strncmp : List ℕ → List ℕ → ℕ → ℤ
strncmp s t zero = pos 0
strncmp [] t (suc n) = sub_ℕ 0 (byte t)
strncmp (x ∷ s) [] (suc n) = sub_ℕ x 0
strncmp (x ∷ s) (y ∷ t) (suc n) = if not (x == 0) && (x == y) then strncmp s t n else sub_ℕ x y

-- The test `… == 0` of a comparison's result.
abbrev pub is_zero : ℤ → Bool
is_zero (pos n) = n == 0
is_zero (negsuc n) = false

-- The bytes of a text: none is NUL.
abbrev pub IsText : List ℕ → Type 0
IsText [] = Unit
IsText (c ∷ s) = (c ≢ 0) × IsText s

-- The object begins with the text and a NUL behind it.
abbrev pub Holds : List ℕ → List ℕ → Type 0
Holds [] s = ⊥
Holds (c ∷ m) [] = c ≡ 0
Holds (c ∷ m) (x ∷ s) = (c ≡ x) × (x ≢ 0) × Holds m s
