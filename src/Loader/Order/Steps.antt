-- ===== src/Loader/Order/Steps.antt =====
-- The steps of a loader, and what comes before them.
use fox_os.Base.{
  ℕ, ◌==◌, ◌≡◌, sym, ◌∙◌, append_assoc, ◌⊎◌, inl, inr, refl, false, List, [], ◌∷◌, ◌++◌, Bool-cases,
  arith,
}
use fox_os.Loader.{
  Call, Reply, Place, Prog, done, ask, look, enter, Event, called, entered, Machine, run,
}
use fox_os.Loader.Boot.{print, checked}
use fox_os.Loader.Order.{is_message, services, is_entered, events, IsRefused, IsEntered}

module _ (m : Machine) (image : ℕ) where
  -- From any events with these calls, and no kernel entered.
  abbrev pub Reports : List Event → Prog → Type 0
  Reports s p =
      (t : List Event)
      → services t ≡ s
      → is_entered t ≡ false
      → IsRefused (run m p t) ⊎ IsEntered m image (run m p t)

  pub ask-Reports :
      (c : Call) (next : Reply → Prog) (s : List Event)
      → is_message c ≡ false
      → ((r : Reply) → ((t : List Event) × (r ≡ m.answer t c)) → Reports (called c r ∷ s) (next r))
      → Reports s (ask c next)
  unfolding run services is_entered
  ask-Reports c next s n h t e f =
      h (m.answer t c) (t, refl) (called c (m.answer t c) ∷ t) (rw (n, e) refl) f

  pub print-Reports :
      (text : List ℕ) (p : Prog) (s : List Event) → Reports s p → Reports s (print text p)
  unfolding run services is_entered is_message print
  print-Reports text p s h t e f = h _ e f

  pub look-Reports :
      (p : Place) (next : ℕ → Prog) (s : List Event)
      → ((v : ℕ) → Reports s (next v))
      → Reports s (look p next)
  unfolding run
  look-Reports p next s h t e f = h (m.value t p) t e f

  pub done-Reports :
      (c : Call) (r : Reply) (s : List Event) → Reports (called c r ∷ s) (done r.status)
  unfolding run
  done-Reports c r s t e f = inl (record {
    v = r.status;
    t = t;
    c = c;
    r = r;
    rest = s;
    returned = refl;
    last = e;
    status = refl;
    no_kernel = f;
  })

  pub checked-Reports :
      (c : Call) (r : Reply) (text : List ℕ) (p : Prog) (s : List Event)
      → (r.status ≡ 0 → Reports (called c r ∷ s) p)
      → Reports (called c r ∷ s) (checked r text p)
  checked-Reports c r text p s h = elim (Bool-cases (r.status == 0)) [
    | inl e ↦ rw e (h (ground arith))
    | inr e ↦ rw e (print-Reports text _ (called c r ∷ s) (done-Reports c r s))
  ]

-- What has happened stays.
run_extends :
    (m : Machine) (p : Prog) (t : List Event)
    → (later : List Event) × (events (run m p t) ≡ later ++ t)
unfolding run events
run_extends m (done v) t = ([], refl)
run_extends m (ask c next) t =
    let r = m.answer t c in
    let (later, e) = run_extends m (next r) (called c r ∷ t) in
    (later ++ (called c r ∷ []), e ∙ sym (append_assoc later (called c r ∷ []) t))
run_extends m (look p next) t = run_extends m (next (m.value t p)) t
run_extends m (enter a next) t = elim (Bool-cases (m.comes_back (entered a ∷ t))) [
  | inl e ↦
      let (later, g) = run_extends m next (entered a ∷ t) in
      (later ++ (entered a ∷ []), rw e (g ∙ sym (append_assoc later (entered a ∷ []) t)))
  | inr e ↦ (entered a ∷ [], rw e refl)
]

pub enter_extends :
    (m : Machine) (a : ℕ) (next : Prog) (t : List Event)
    → (later : List Event) × (events (run m (enter a next) t) ≡ later ++ (entered a ∷ t))
unfolding run events
enter_extends m a next t = elim (Bool-cases (m.comes_back (entered a ∷ t))) [
  | inl e ↦ rw e (run_extends m next (entered a ∷ t))
  | inr e ↦ ([], rw e refl)
]
