-- ===== src/Loader/Unread.antt =====
-- The calls that foxos_uefi.c does not check.
use fox_os.Base.{ℕ, ◌≡◌, refl, Bool, true, false, Bool-cases, inl, inr, List, ◌∷◌, []}
use fox_os.Loader.{
  Call, locate_protocol, open_volume, open_file, Reply, Place, Prog, done, ask, look, enter, Event,
  called, entered, Machine, run,
}
use fox_os.Loader.Fox.{read_and_enter, fox_main}
use fox_os.Loader.Order.{is_entered, events}

-- The calls that `UefiMain` checks.
unfoldable pub is_checked : Call → Bool
is_checked (locate_protocol guid) = true
is_checked (open_volume fs) = true
is_checked (open_file dir path mode attributes) = true
is_checked _ = false

module _ (m : Machine)
    (fine : (t : List Event) (c : Call) → is_checked c ≡ true → (m.answer t c).status ≡ 0) where
  -- A kernel is entered.
  abbrev Enters : Prog → Type 0
  Enters p = (t : List Event) → is_entered (events (run m p t)) ≡ true

  ask-Enters :
      (c : Call) (next : Reply → Prog) → ((r : Reply) → Enters (next r)) → Enters (ask c next)
  unfolding run
  ask-Enters c next h t = h (m.answer t c) (called c (m.answer t c) ∷ t)

  checked-Enters :
      (c : Call) (next : Reply → Prog)
      → is_checked c ≡ true
      → ((r : Reply) → r.status ≡ 0 → Enters (next r))
      → Enters (ask c next)
  unfolding run
  checked-Enters c next k h t = h (m.answer t c) (fine t c k) (called c (m.answer t c) ∷ t)

  look-Enters : (p : Place) (next : ℕ → Prog) → ((v : ℕ) → Enters (next v)) → Enters (look p next)
  unfolding run
  look-Enters p next h t = h (m.value t p) t

  enter-Enters : (a v : ℕ) → Enters (enter a (done v))
  unfolding run events is_entered
  enter-Enters a v t = elim (Bool-cases (m.comes_back (entered a ∷ t))) [
    | inl e ↦ rw e refl
    | inr e ↦ rw e refl
  ]

  read_and_enter-Enters : (file : ℕ) → Enters (read_and_enter file)
  unfolding read_and_enter
  read_and_enter-Enters file = look-Enters _ _ (λ v. ask-Enters _ _ (λ size.
      ask-Enters _ _
        (λ buffer. ask-Enters _ _ (λ r. ask-Enters _ _ (λ r'. enter-Enters buffer.out 0)))))

-- Once the protocol, the volume and the file are found, `UefiMain` of foxos_uefi.c enters a kernel,
-- whatever the status of `GetInfo`, `AllocatePool` and `Read`.
pub fox_enters_unread :
    (m : Machine)
    → ((t : List Event) (c : Call) → is_checked c ≡ true → (m.answer t c).status ≡ 0)
    → is_entered (events (run m fox_main [])) ≡ true
unfolding fox_main is_checked
fox_enters_unread m fine =
    ask-Enters m fine _ _
      (λ r. ask-Enters m fine _ _ (λ r'. checked-Enters m fine _ _ refl (λ fs e. rw e (
        ask-Enters m fine _ _ (λ r''. checked-Enters m fine _ _ refl (λ root e'. rw e' (
          ask-Enters m fine _ _ (λ r3. checked-Enters m fine _ _ refl (λ file e''.
            rw e'' (ask-Enters m fine _ _ (λ r4. read_and_enter-Enters m fine file.out)))))))))))
      []
