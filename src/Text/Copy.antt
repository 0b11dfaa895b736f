-- ===== src/Text/Copy.antt =====
-- What the copying functions leave in their destination.
use fox_os.Base.{
  ℕ, zero, suc, ◌+◌, ◌^◌, ◌<◌, ◌≤◌, ◌≡◌, refl, ap₂, append_assoc, length-drop, length-append, ◌-◌,
  List, [], ◌∷◌, ◌++◌, arith, take, drop, length, ret, fault, replicate,
}
use native.Mathlib.Nat.{mod-eq_of_lt}
use fox_os.Text.{scan, strlen, strcpy, strcat, strncpy, zero_fill, IsText, Holds}
use fox_os.Text.Compare.{Holds-IsText}

pub scan_lem : (m s : List ℕ) → Holds m s → scan m ≡ ret (length s)
unfolding scan
scan_lem [] s h = absurd h
scan_lem (c ∷ m) [] h = ground arith
scan_lem (c ∷ m) (x ∷ s) h = ground (arith, scan_lem m s)

-- What `strcpy` leaves when it ends: the text and its NUL, then the old bytes.
strcpy_result :
    (dest src s : List ℕ)
    → Holds src s
    → length s < length dest
    → strcpy dest src ≡ ret (s ++ (0 ∷ drop (suc (length s)) dest))
unfolding strcpy
strcpy_result dest [] s h l = absurd h
strcpy_result [] (c ∷ src) s h l = absurd (omega arith)
strcpy_result (d ∷ dest) (c ∷ src) [] h l = ground arith
strcpy_result (d ∷ dest) (c ∷ src) (x ∷ s) h l = ground (arith, strcpy_result dest src s)

pub strcpy_overflow :
    (dest src s : List ℕ) → Holds src s → length dest ≤ length s → strcpy dest src ≡ fault
unfolding strcpy
strcpy_overflow dest [] s h l = absurd h
strcpy_overflow [] (c ∷ src) s h l = refl
strcpy_overflow (d ∷ dest) (c ∷ src) [] h l = absurd (omega arith)
strcpy_overflow (d ∷ dest) (c ∷ src) (x ∷ s) h l = ground (arith, strcpy_overflow dest src s)

Holds-append : (s r : List ℕ) → IsText s → Holds (s ++ (0 ∷ r)) s
Holds-append [] r p = refl
Holds-append (x ∷ s) r p = (refl, p.0, Holds-append s r p.1)

-- `strcpy` into an object with room for the text and its NUL ends with an object of the same size
-- that holds the text, its bytes behind the NUL unchanged. Into a smaller one it writes past the
-- end.
strcpy_lem :
    (dest src s : List ℕ)
    → Holds src s
    → (length s < length dest
        → (strcpy dest src ≡ ret (s ++ (0 ∷ drop (suc (length s)) dest)))
          × Holds (s ++ (0 ∷ drop (suc (length s)) dest)) s)
      × (length dest ≤ length s → strcpy dest src ≡ fault)
strcpy_lem dest src s h = (
  λ l. (strcpy_result dest src s h l, Holds-append s _ (Holds-IsText src s h)),
  strcpy_overflow dest src s h,
)

take-Holds : (m a : List ℕ) → Holds m a → take (length a) m ≡ a
take-Holds [] a h = absurd h
take-Holds (c ∷ m) [] h = refl
take-Holds (c ∷ m) (x ∷ a) h = ap₂ ◌∷◌ h.0 (take-Holds m a h.2)

length-Holds : (m a : List ℕ) → Holds m a → length a < length m
length-Holds [] a h = absurd h
length-Holds (c ∷ m) [] h = omega arith
length-Holds (c ∷ m) (x ∷ a) h = omega (arith, length-Holds m a h.2)

IsText-append : (a b : List ℕ) → IsText a → IsText b → IsText (a ++ b)
IsText-append [] b p q = q
IsText-append (x ∷ a) b p q = (p.0, IsText-append a b p.1 q)

-- `strcat` behind a text shorter than 2 ^ 32, with room for both, ends with an object of the same
-- size that holds the two texts one behind the other.
strcat_lem :
    (dest src a b : List ℕ)
    → Holds dest a
    → Holds src b
    → length a < 2 ^ 32
    → length a + length b < length dest
    → (r : List ℕ) × (strcat dest src ≡ ret r) × Holds r (a ++ b) × (length r ≡ length dest)
unfolding strcat strlen
strcat_lem dest src a b h k l room =
    let rest = drop (length a) dest in
    let tail = b ++ (0 ∷ drop (suc (length b)) rest) in
    (
      a ++ tail,
      rw (
        scan_lem dest a h,
        mod-eq_of_lt l,
        strcpy_result rest src b k (omega (arith, length-drop (length a) dest)),
        take-Holds dest a h,
      ),
      rw (← append_assoc) (
          Holds-append (a ++ b) _
            (IsText-append a b (Holds-IsText dest a h) (Holds-IsText src b k))),
      omega (
        arith,
        length-append a tail,
        length-append b (0 ∷ drop (suc (length b)) rest),
        length-drop (suc (length b)) rest,
        length-drop (length a) dest,
      ),
    )

zero_fill_lem :
    (dest : List ℕ) (n : ℕ)
    → n ≤ length dest
    → zero_fill dest n ≡ ret (replicate n 0 ++ drop n dest)
unfolding zero_fill
zero_fill_lem dest zero l = refl
zero_fill_lem [] (suc n) l = absurd (omega arith)
zero_fill_lem (d ∷ dest) (suc n) l = ground (arith, zero_fill_lem dest n)

-- `strncpy` of a text into an object with at least `n` bytes ends with an object of the same size:
-- the first `n` bytes of the text, NUL bytes up to `n`, and the old bytes. It holds the text if
-- the text is shorter than `n`; otherwise no NUL is written.
strncpy_lem :
    (dest src s : List ℕ) (n : ℕ)
    → Holds src s
    → n ≤ length dest
    → strncpy dest src n ≡ ret (take n s ++ (replicate (n - length s) 0 ++ drop n dest))
unfolding strncpy
strncpy_lem dest src s zero h l = let e : 0 - length s ≡ 0 = omega arith in rw e
strncpy_lem dest [] s (suc n) h l = absurd h
strncpy_lem [] (c ∷ src) s (suc n) h l = absurd (omega arith)
strncpy_lem (d ∷ dest) (c ∷ src) [] (suc n) h l = ground (arith, zero_fill_lem (d ∷ dest) (suc n) l)
strncpy_lem (d ∷ dest) (c ∷ src) (x ∷ s) (suc n) h l = ground (arith, strncpy_lem dest src s n)
