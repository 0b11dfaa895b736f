-- ===== src/Text/Tests.antt =====
-- Runs of the string functions on small objects.
use fox_os.Base.{ℕ, ◌≡◌, refl, ◌↔◌, arith, true, List, [], ◌∷◌, codes}
use fox_os.Text.{strcmp, is_zero, Holds}
use fox_os.Text.Compare.{strcmp_decides}

-- An object that holds "ab" and something behind its NUL, and one that holds "abc".
abbrev ab : List ℕ
ab = 97 ∷ 98 ∷ 0 ∷ 7 ∷ 7 ∷ 7 ∷ 7 ∷ []

abbrev abc : List ℕ
abc = 97 ∷ 98 ∷ 99 ∷ 0 ∷ []

ab-Holds : Holds ab (97 ∷ 98 ∷ [])
ab-Holds = (refl, ground arith, (refl, ground arith, refl))

abc-Holds : Holds abc (97 ∷ 98 ∷ 99 ∷ [])
abc-Holds = (refl, ground arith, (refl, ground arith, (refl, ground arith, refl)))

strcmp_decides_example : (is_zero (strcmp ab abc) ≡ true) ↔ (codes "ab" ≡ codes "abc")
strcmp_decides_example = strcmp_decides ab abc (codes "ab") (codes "abc") ab-Holds abc-Holds
