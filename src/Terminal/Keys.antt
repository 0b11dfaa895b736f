-- ===== src/Terminal/Keys.antt =====
-- What a key does to the line, against an editor that keeps the text before the cursor, its last
-- byte first, and the text behind it.
use mathlib.Core.List.{reverse, reverse-cons}
use fox_os.Base.{
  ℕ, ◌+◌, ◌≡◌, refl, List, [], ◌∷◌, arith, length, length-reverse, le→ltb, true, false, Bool, ltb,
  leb, ltb→lt, if◌then◌else◌, ◌==◌, ◌&&◌, ret, Bool-cases, inl, inr,
}
use fox_os.Keyboard.{char_left, char_right, char_del}
use fox_os.Screen.{Screen}
use fox_os.Terminal.{Line, move_left, move_right, accepts, edit_key, moved, redrawn}
use fox_os.Terminal.Edit.{
  Shows-IsInside, Shows, delete-Shows, erase-Shows, insert-Shows, left-Shows, right-Shows,
}
use fox_os.Terminal.Inside.{deleted, erased, inserted, IsInside, delete-ret, erase-ret, insert-ret}

-- The bytes before the cursor, nearest first, and those behind it.
pub record Editor : Type 0 where
  pub before : List ℕ
  pub after : List ℕ

abbrev pub editor : List ℕ → List ℕ → Editor
editor a b = record { before = a; after = b }

back : Editor → Editor
back e = elim e.before [ [] ↦ e | x ∷ a ↦ editor a (x ∷ e.after) ]

forward : Editor → Editor
forward e = elim e.after [ [] ↦ e | x ∷ b ↦ editor (x ∷ e.before) b ]

delete : Editor → Editor
delete e = elim e.after [ [] ↦ e | x ∷ b ↦ editor e.before b ]

erase : Editor → Editor
erase e = elim e.before [ [] ↦ e | x ∷ a ↦ editor a e.after ]

-- 255 bytes fit; only printable ASCII goes in.
type : ℕ → Editor → Editor
type c e =
    if ltb (length e.before + length e.after) 255 && leb b' ' c && leb c b'~'
    then editor (c ∷ e.before) e.after
    else e

pub press : ℕ → Editor → Editor
unfolding back forward delete erase type
press c e =
    if c == char_left
    then back e
    else if c == char_right
    then forward e
    else if c == char_del
    then delete e
    else if c == 8
    then erase e
    else type c e

abbrev pub Holds : Line → Editor → Type 0
Holds l e = Shows l (reverse e.before) e.after

-- The line after a key.
abbrev key_line : ℕ → Line → Line
key_line c l =
    if c == char_left
    then move_left l
    else if c == char_right
    then move_right l
    else if c == char_del
    then deleted l
    else if c == 8
    then erased l
    else inserted l c

moved-line :
    (s : Screen) (p : ℕ) (b : Bool) (l : Line) {t : Screen} {l' : Line}
    → moved s p b l ≡ ret (t, l')
    → l' ≡ l
moved-line s p true l h = ground arith
moved-line s p false l h = ground arith

redrawn-line :
    (s : Screen) (p : ℕ) (b : Bool) (l : Line) {t : Screen} {l' : Line}
    → redrawn s p b (ret l) ≡ ret (t, l')
    → l' ≡ l
redrawn-line s p true l h = ground arith
redrawn-line s p false l h = ground arith

edit_key-line :
    (s : Screen) (p : ℕ) (l : Line) (c : ℕ) {t : Screen} {l' : Line}
    → IsInside l
    → edit_key s p l c ≡ ret (t, l')
    → l' ≡ key_line c l
unfolding edit_key
edit_key-line s p l c {t} {l'} v h =
    let g = rw (delete-ret l v, erase-ret l v, insert-ret l c v) at h in
    ground (
      arith,
      moved-line s p (ltb 0 l.cursor_pos) (move_left l) {t = t} {l' = l'},
      moved-line s p (ltb l.cursor_pos l.buffer_pos) (move_right l) {t = t} {l' = l'},
      redrawn-line s p (ltb l.cursor_pos l.buffer_pos) (deleted l) {t = t} {l' = l'},
      redrawn-line s p (ltb 0 l.cursor_pos) (erased l) {t = t} {l' = l'},
      redrawn-line s p (accepts l c) (inserted l c) {t = t} {l' = l'},
    )

insert_refused :
    (l : Line) (c : ℕ) {a b : List ℕ} → accepts l c ≡ false → Shows l a b → Shows (inserted l c) a b
unfolding inserted
insert_refused l c e h = rw e h

and-left : (a b : Bool) → (a && b) ≡ true → a ≡ true
and-left true b h = refl
and-left false b h = cc

back-Holds :
    (l : Line) (a b : List ℕ) → Holds l (editor a b) → Holds (move_left l) (back (editor a b))
unfolding back move_left
back-Holds l [] b h = rw (le→ltb 0 l.cursor_pos (omega (arith, h.cursor))) h
back-Holds l (x ∷ a) b h = unfold move_left in left-Shows l (reverse a) b x (rw reverse-cons at h)

forward-Holds :
    (l : Line) (a b : List ℕ) → Holds l (editor a b) → Holds (move_right l) (forward (editor a b))
unfolding forward move_right
forward-Holds l a [] h = rw (le→ltb l.cursor_pos l.buffer_pos (omega (arith, h.cursor, h.end))) h
forward-Holds l a (x ∷ b) h = rw reverse-cons (right-Shows l (reverse a) b x h)

delete-Holds :
    (l : Line) (a b : List ℕ) → Holds l (editor a b) → Holds (deleted l) (delete (editor a b))
unfolding delete deleted
delete-Holds l a [] h = rw (le→ltb l.cursor_pos l.buffer_pos (omega (arith, h.cursor, h.end))) h
delete-Holds l a (x ∷ b) h = delete-Shows l (reverse a) b x h

erase-Holds :
    (l : Line) (a b : List ℕ) → Holds l (editor a b) → Holds (erased l) (erase (editor a b))
unfolding erase erased
erase-Holds l [] b h = rw (le→ltb 0 l.cursor_pos (omega (arith, h.cursor))) h
erase-Holds l (x ∷ a) b h = erase-Shows l (reverse a) b x (rw reverse-cons at h)

type-Holds :
    (l : Line) (a b : List ℕ) (c : ℕ)
    → Holds l (editor a b)
    → Holds (inserted l c) (type c (editor a b))
unfolding type
type-Holds l a b c h =
    let size : l.buffer_pos ≡ length a + length b = omega (arith, h.end, length-reverse a) in
    elim (Bool-cases (accepts l c)) [
      | inl e ↦
          let e' : (ltb (length a + length b) 255 && leb b' ' c && leb c b'~') ≡ true =
            rw size at e in
          rw (e', reverse-cons)
            (insert-Shows l (reverse a) b c h e (
              omega (
                arith,
                length-reverse a,
                ltb→lt (length a + length b) 255
                    (and-left _ (leb b' ' c) (and-left _ (leb c b'~') e')),
              )))
      | inr e ↦
          let e' : (ltb (length a + length b) 255 && leb b' ' c && leb c b'~') ≡ false =
            rw size at e in
          rw e' (insert_refused l c e h)
    ]

press-Holds : (l : Line) (e : Editor) (c : ℕ) → Holds l e → Holds (key_line c l) (press c e)
unfolding press
press-Holds l e c h = elim (Bool-cases (c == char_left)) [
  | inl k ↦ rw k (back-Holds l e.before e.after h)
  | inr k ↦ elim (Bool-cases (c == char_right)) [
    | inl m ↦ rw (k, m) (forward-Holds l e.before e.after h)
    | inr m ↦ elim (Bool-cases (c == char_del)) [
      | inl n ↦ rw (k, m, n) (delete-Holds l e.before e.after h)
      | inr n ↦ elim (Bool-cases (c == 8)) [
        | inl o ↦ rw (k, m, n, o) (erase-Holds l e.before e.after h)
        | inr o ↦ rw (k, m, n, o) (type-Holds l e.before e.after c h)
      ]
    ]
  ]
]

pub edit_key-Holds :
    (s : Screen) (prompt_length : ℕ) (l : Line) (e : Editor) (c : ℕ) {t : Screen} {l' : Line}
    → Holds l e
    → edit_key s prompt_length l c ≡ ret (t, l')
    → Holds l' (press c e)
edit_key-Holds s p l e c {t} {l'} h k =
    rw (edit_key-line s p l c (Shows-IsInside l _ e.after h) k) (press-Holds l e c h)
