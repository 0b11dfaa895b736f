-- ===== src/Base/Fault.antt =====
-- What a piece of C code does: it comes to its end with a value, or it reads or writes outside the
-- object that a pointer points into.
use mathlib.Core.Path.{◌≡◌, refl, sym, ap, ◌∙◌, subst}
use mathlib.Core.Bool.{Bool, true, false}
use fox_os.Base.Tests.{if◌then◌else◌}
use native.Mathlib.Omega.{arith}
use Prim.Native.Nat.{ℕ, zero, suc, ◌<◌}
use mathlib.Core.List.{List, [], ◌∷◌}
use fox_os.Base.Lists.{length, get_or, get_elem?, set}
use mathlib.Core.Option.{some}

pub data Run {ℓ} (A : Type ℓ) : Type ℓ where
  ret : A → Run A
  fault : Run A

infixl 5 ◌>>=◌
abbrev pub ◌>>=◌ {ℓ κ} : {A : Type ℓ} {B : Type κ} → Run A → (A → Run B) → Run B
ret a >>= f = f a
fault >>= f = fault

-- An access that is in range only if the test holds.
abbrev pub need {ℓ} : {A : Type ℓ} → Bool → Run A → Run A
need true k = k
need false k = fault

pub need-ret {ℓ} : {A : Type ℓ} {b : Bool} {k : Run A} → b ≡ true → need b k ≡ k
need-ret {b = true} h = refl
need-ret {b = false} h = ground arith

-- `xs[i]` of an array.
abbrev pub load {ℓ} : {A : Type ℓ} → List A → ℕ → Run A
load [] i = fault
load (x ∷ xs) zero = ret x
load (x ∷ xs) (suc i) = load xs i

-- `xs[i] = v;` in an array.
abbrev pub store {ℓ} : {A : Type ℓ} → List A → ℕ → A → Run (List A)
store [] i v = fault
store (x ∷ xs) zero v = ret (v ∷ xs)
store (x ∷ xs) (suc i) v = store xs i v >>= λ ys. ret (x ∷ ys)

module _ {ℓ} {A : Type ℓ} where
  pub load-get_or : (xs : List A) (i : ℕ) (d : A) → i < length xs → load xs i ≡ ret (get_or xs i d)
  load-get_or [] i d l = absurd (omega arith)
  load-get_or (x ∷ xs) zero d l = refl
  load-get_or (x ∷ xs) (suc i) d l = load-get_or xs i d (omega arith)

  pub load-get_elem? : (xs : List A) (i : ℕ) {x : A} → get_elem? xs i ≡ some x → load xs i ≡ ret x
  load-get_elem? [] i h = absurd (cc h)
  load-get_elem? (x ∷ xs) zero h = cc h
  load-get_elem? (x ∷ xs) (suc i) h = load-get_elem? xs i h

  pub store-set : (xs : List A) (i : ℕ) (v : A) → i < length xs → store xs i v ≡ ret (set xs i v)
  store-set [] i v l = absurd (omega arith)
  store-set (x ∷ xs) zero v l = refl
  store-set (x ∷ xs) (suc i) v l = rw (store-set xs i v (omega arith)) refl

-- The code comes to its end, with a value that has the property.
abbrev pub Ends {ℓ κ} : {A : Type ℓ} → Run A → (A → Type κ) → Type (ℓ ⊔ κ)
Ends {A = A} r P = (a : A) × (r ≡ ret a) × P a

pub bind-Ends {ℓ κ ι μ} :
    {A : Type ℓ} {B : Type κ} {r : Run A} {f : A → Run B} {P : A → Type ι} {Q : B → Type μ}
    → Ends r P
    → ((a : A) → P a → Ends (f a) Q)
    → Ends (r >>= f) Q
bind-Ends {f = f} (a, e, p) h = let (b, g, q) = h a p in (b, ap (λ z. z >>= f) e ∙ g, q)

-- If the code comes to its end, the value has the property.
pub record Leaves {ℓ κ} {A : Type ℓ} (r : Run A) (P : A → Type κ) : Type (ℓ ⊔ κ) where
  pub value : (a : A) → r ≡ ret a → P a

module _ {ℓ κ} {A : Type ℓ} {P : A → Type κ} where
  pub ret-Leaves : {a : A} → P a → Leaves (ret a) P
  ret-Leaves {a} p = record { value = λ b e. let z : a ≡ b = cc e in subst P z p }

  pub Ends-Leaves : {r : Run A} → Ends r P → Leaves r P
  Ends-Leaves (a, e, p) = record { value = λ b g. let z : a ≡ b = cc (sym e ∙ g) in subst P z p }

  pub fault-Leaves : {r : Run A} → r ≡ fault → Leaves r P
  fault-Leaves e = record { value = λ a g. absurd (cc (sym e ∙ g)) }

  pub if-Leaves : {x y : Run A} (b : Bool) → Leaves x P → Leaves y P → Leaves (if b then x else y) P
  if-Leaves true p q = p
  if-Leaves false p q = q

pub bind-Leaves {ℓ κ ι μ} :
    {A : Type ℓ} {B : Type κ} {r : Run A} {f : A → Run B} {P : A → Type ι} {Q : B → Type μ}
    → Leaves r P
    → ((a : A) → P a → Leaves (f a) Q)
    → Leaves (r >>= f) Q
bind-Leaves {r = ret a} p h = h a (p.value a refl)
bind-Leaves {r = fault} p h = fault-Leaves refl

-- Whatever the value is that the rest goes on with.
pub then-Leaves {ℓ κ μ} :
    {A : Type ℓ} {B : Type κ} (r : Run A) {f : A → Run B} {Q : B → Type μ}
    → ((a : A) → Leaves (f a) Q)
    → Leaves (r >>= f) Q
then-Leaves (ret a) h = h a
then-Leaves fault h = fault-Leaves refl
