-- ===== src/Terminal/Shift.antt =====
-- The loops that move the bytes of the input buffer.
use mathlib.Core.List.{reverse, reverse-cons, reverse-reverse}
use fox_os.Base.{
  ℕ, zero, suc, ◌+◌, ◌≡◌, refl, sym, ap, ◌∙◌, List, [], ◌∷◌, ◌++◌, arith, length, set, get_or,
  append_assoc, length-append, length-set, ret, ◌<◌, load-get_or, store-set, length-reverse,
}
use fox_os.Terminal.{shift_left, shift_right}

-- The buffer after the loops, where these stay inside it.
pub shifted_left : ℕ → ℕ → List ℕ → List ℕ
shifted_left zero from b = b
shifted_left (suc n) from b = shifted_left n (suc from) (set b from (get_or b (suc from) 0))

pub shifted_right : ℕ → ℕ → List ℕ → List ℕ
shifted_right zero from b = b
shifted_right (suc n) from b = shifted_right n from (set b (suc (from + n)) (get_or b (from + n) 0))

pub shift_left-ret :
    (n from : ℕ) (b : List ℕ)
    → from + n < length b
    → shift_left n from b ≡ ret (shifted_left n from b)
unfolding shift_left shifted_left
shift_left-ret zero from b l = refl
shift_left-ret (suc n) from b l =
    let c = get_or b (suc from) 0 in
    rw (load-get_or b (suc from) 0 (omega arith), store-set b from c (omega arith))
      (shift_left-ret n (suc from) (set b from c) (omega (arith, length-set b from c)))

pub shift_right-ret :
    (n from : ℕ) (b : List ℕ)
    → from + n < length b
    → shift_right n from b ≡ ret (shifted_right n from b)
unfolding shift_right shifted_right
shift_right-ret zero from b l = refl
shift_right-ret (suc n) from b l =
    let c = get_or b (from + n) 0 in
    rw (load-get_or b (from + n) 0 (omega arith), store-set b (suc (from + n)) c (omega arith))
      (shift_right-ret n from (set b (suc (from + n)) c)
        (omega (arith, length-set b (suc (from + n)) c)))

pub length-shifted_left : (n from : ℕ) (b : List ℕ) → length (shifted_left n from b) ≡ length b
unfolding shifted_left
length-shifted_left zero from b = refl
length-shifted_left (suc n) from b =
    length-shifted_left n (suc from) (set b from (get_or b (suc from) 0))
    ∙ length-set b from (get_or b (suc from) 0)

pub length-shifted_right : (n from : ℕ) (b : List ℕ) → length (shifted_right n from b) ≡ length b
unfolding shifted_right
length-shifted_right zero from b = refl
length-shifted_right (suc n) from b =
    length-shifted_right n from (set b (suc (from + n)) (get_or b (from + n) 0))
    ∙ length-set b (suc (from + n)) (get_or b (from + n) 0)

set-append : (a b : List ℕ) (x v : ℕ) (n : ℕ) → n ≡ length a → set (a ++ (x ∷ b)) n v ≡ a ++ (v ∷ b)
set-append [] b x v zero h = refl
set-append [] b x v (suc n) h = absurd (omega arith)
set-append (y ∷ a) b x v zero h = absurd (omega arith)
set-append (y ∷ a) b x v (suc n) h = ap (y ∷◌) (set-append a b x v n (omega arith))

get_or-append : (a b : List ℕ) (x : ℕ) (n : ℕ) → n ≡ length a → get_or (a ++ (x ∷ b)) n 0 ≡ x
get_or-append [] b x zero h = refl
get_or-append [] b x (suc n) h = absurd (omega arith)
get_or-append (y ∷ a) b x zero h = absurd (omega arith)
get_or-append (y ∷ a) b x (suc n) h = get_or-append a b x n (omega arith)

snoc-append : (a b : List ℕ) (x : ℕ) → (a ++ (x ∷ [])) ++ b ≡ a ++ (x ∷ b)
snoc-append a b x = append_assoc a (x ∷ []) b

-- Moving the bytes behind a byte over it, and a NUL over the last, takes the byte out.
pub shifted_left_lem :
    (a b z : List ℕ) (x from : ℕ)
    → from ≡ length a
    → set (shifted_left (length b) from (a ++ (x ∷ (b ++ z)))) (from + length b) 0
      ≡ a ++ (b ++ (0 ∷ z))
unfolding shifted_left
shifted_left_lem a [] z x from h = set-append a z x 0 (from + 0) (omega arith)
shifted_left_lem a (y ∷ b) z x from h =
    let r = b ++ z in
    let read : get_or (a ++ (x ∷ y ∷ r)) (suc from) 0 ≡ y =
      ap (λ l. get_or l (suc from) 0) (sym (snoc-append a (y ∷ r) x))
      ∙ get_or-append (a ++ (x ∷ [])) r y (suc from) (omega (arith, length-append a (x ∷ []))) in
    let written : set (a ++ (x ∷ y ∷ r)) from y ≡ (a ++ (y ∷ [])) ++ (y ∷ r) =
      set-append a (y ∷ r) x y from h ∙ sym (snoc-append a (y ∷ r) y) in
    let e : from + suc (length b) ≡ suc from + length b = omega arith in
    let n = length b in
    ap (λ v. set (shifted_left n (suc from) (set (a ++ (x ∷ y ∷ r)) from v)) (from + suc n) 0) read
    ∙ ap (λ l. set (shifted_left n (suc from) l) (from + suc n) 0) written
    ∙ ap (λ k. set (shifted_left n (suc from) ((a ++ (y ∷ [])) ++ (y ∷ r))) k 0) e
    ∙ (shifted_left_lem (a ++ (y ∷ [])) b z y (suc from) (omega (arith, length-append a (y ∷ [])))
        ∙ snoc-append a (b ++ (0 ∷ z)) y)

-- Moving the bytes of a text up by one, the last first, leaves room for one byte before it.
shifted_right-reverse :
    (a r z : List ℕ) (w from : ℕ)
    → from ≡ length a
    → (h : ℕ) × (shifted_right (length r) from (a ++ (reverse r ++ (w ∷ z)))
        ≡ a ++ (h ∷ (reverse r ++ z)))
unfolding shifted_right
shifted_right-reverse a [] z w from h = (w, refl)
shifted_right-reverse a (y ∷ r) z w from h =
    let p = a ++ reverse r in
    let regroup : (t : List ℕ) → a ++ (reverse (y ∷ r) ++ t) ≡ p ++ (y ∷ t) = λ t.
      ap (λ l. a ++ (l ++ t)) (reverse-cons y r)
      ∙ ap (a ++◌) (snoc-append (reverse r) t y)
      ∙ sym (append_assoc a (reverse r) (y ∷ t)) in
    let size : length p ≡ from + length r =
      omega (arith, length-append a (reverse r), length-reverse r) in
    let read : get_or (p ++ (y ∷ w ∷ z)) (from + length r) 0 ≡ y =
      get_or-append p (w ∷ z) y (from + length r) (omega arith) in
    let written : set (p ++ (y ∷ w ∷ z)) (suc (from + length r)) y
        ≡ a ++ (reverse r ++ (y ∷ y ∷ z)) =
      ap (λ l. set l (suc (from + length r)) y) (sym (snoc-append p (w ∷ z) y))
      ∙ set-append (p ++ (y ∷ [])) z w y (suc (from + length r))
          (omega (arith, length-append p (y ∷ [])))
      ∙ snoc-append p (y ∷ z) y
      ∙ append_assoc a (reverse r) (y ∷ y ∷ z) in
    let (k, e) = shifted_right-reverse a r (y ∷ z) y from h in
    (
      k,
      ap
            (λ l.
              shifted_right (length r) from
                (set l (suc (from + length r)) (get_or l (from + length r) 0)))
            (regroup (w ∷ z))
          ∙ ap
              (λ v.
                shifted_right (length r) from (set (p ++ (y ∷ w ∷ z)) (suc (from + length r)) v))
              read
          ∙ ap (shifted_right (length r) from) written
          ∙ e
          ∙ ap (λ l. a ++ (k ∷ l))
              (sym (snoc-append (reverse r) z y) ∙ ap (λ l. l ++ z) (sym (reverse-cons y r))),
    )

pub shifted_right_lem :
    (a b z : List ℕ) (w from c : ℕ)
    → from ≡ length a
    → set (shifted_right (length b) from (a ++ (b ++ (w ∷ z)))) from c ≡ a ++ (c ∷ (b ++ z))
shifted_right_lem a b z w from c h =
    let (k, e) = shifted_right-reverse a (reverse b) z w from h in
    let e' = rw (reverse-reverse, length-reverse) at e in
    ap (λ l. set l from c) e' ∙ set-append a (b ++ z) k c from h

-- Both with the indices as the code has them.
module _ (a b z : List ℕ) {n from : ℕ} {buffer : List ℕ} (hn : n ≡ length b)
    (hf : from ≡ length a) where
  pub take_out :
      (x : ℕ) {m : ℕ}
      → m ≡ length a + length b
      → buffer ≡ a ++ (x ∷ (b ++ z))
      → set (shifted_left n from buffer) m 0 ≡ a ++ (b ++ (0 ∷ z))
  take_out x {m} hm h =
      let at : m ≡ from + length b = omega arith in
      rw (hn, at, h) (shifted_left_lem a b z x from hf)

  pub put_in :
      (w c : ℕ)
      → buffer ≡ a ++ (b ++ (w ∷ z))
      → set (shifted_right n from buffer) from c ≡ a ++ (c ∷ (b ++ z))
  put_in w c h = rw (hn, h) (shifted_right_lem a b z w from c hf)
