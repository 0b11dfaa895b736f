-- ===== src/Terminal/Edit.antt =====
-- The keys against a line that is split at the cursor.
use fox_os.Base.{
  ℕ, suc, ◌+◌, ◌-◌, ◌<◌, ◌≡◌, refl, sym, ap, ◌∙◌, List, [], ◌∷◌, ◌++◌, arith, length, replicate,
  append_assoc, length-append, length-replicate, lt→ltb, true,
}
use fox_os.Terminal.{Line, terminal_buffer_size, clear_buffer, move_left, move_right, accepts}
use fox_os.Terminal.Shift.{take_out, put_in}
use fox_os.Terminal.Inside.{deleted, erased, inserted, IsInside}

-- The buffer holds the text before the cursor, the text behind it, and NUL bytes to its end, of
-- which there is one at least.
pub record Shows (l : Line) (before after : List ℕ) : Type 0 where
  pub buffer :
      l.input_buffer
      ≡ before ++ (after ++ replicate (terminal_buffer_size - (length before + length after)) 0)
  pub end : l.buffer_pos ≡ length before + length after
  pub cursor : l.cursor_pos ≡ length before
  pub room : length before + length after < terminal_buffer_size

pub clear-Shows : (l : Line) → Shows (clear_buffer l) [] []
unfolding clear_buffer
clear-Shows l = record { buffer = refl; end = refl; cursor = refl; room = omega arith }

pub length-buffer : (l : Line) (a b : List ℕ) → Shows l a b → length l.input_buffer ≡ 256
length-buffer l a b v =
    ap length v.buffer
    ∙ omega (
      arith,
      v.room,
      length-append a (b ++ replicate (256 - (length a + length b)) 0),
      length-append b (replicate (256 - (length a + length b)) 0),
      length-replicate {A = ℕ} (256 - (length a + length b)) 0,
    )

-- Both indices of the line are inside the buffer.
pub Shows-room : (l : Line) (a b : List ℕ) → Shows l a b → l.buffer_pos < length l.input_buffer
Shows-room l a b v = omega (arith, v.end, v.room, length-buffer l a b v)

pub Shows-IsInside : (l : Line) (a b : List ℕ) → Shows l a b → IsInside l
Shows-IsInside l a b v = record {
  cursor = omega (arith, v.end, v.cursor);
  room = Shows-room l a b v;
}

-- One NUL more at the front.
zeros : (m n : ℕ) → m ≡ suc n → replicate {A = ℕ} m 0 ≡ 0 ∷ replicate n 0
zeros m n h = ap (λ k. replicate {A = ℕ} k 0) h

abbrev pad : ℕ → List ℕ
pad n = replicate (terminal_buffer_size - n) 0

-- The delete key takes out the byte behind the cursor.
pub delete-Shows : (l : Line) (a b : List ℕ) (x : ℕ) → Shows l a (x ∷ b) → Shows (deleted l) a b
unfolding deleted
delete-Shows l a b x s =
    rw (lt→ltb l.cursor_pos l.buffer_pos (omega (arith, s.end, s.cursor))) (record {
      buffer =
          take_out a b (pad (length a + suc (length b))) (omega (arith, s.end, s.cursor)) s.cursor x
            (omega (arith, s.end)) s.buffer
          ∙ ap (λ z. a ++ (b ++ z)) (sym (zeros _ _ (omega (arith, s.room))));
      end = omega (arith, s.end);
      cursor = s.cursor;
      room = omega (arith, s.room);
    })

length-snoc : (a : List ℕ) (x : ℕ) → length (a ++ (x ∷ [])) ≡ suc (length a)
length-snoc a x = omega (arith, length-append a (x ∷ []))

-- The backspace key takes out the byte before the cursor.
pub erase-Shows :
    (l : Line) (a b : List ℕ) (x : ℕ) → Shows l (a ++ (x ∷ [])) b → Shows (erased l) a b
unfolding erased
erase-Shows l a b x s =
    let n = length-snoc a x in
    rw (lt→ltb 0 l.cursor_pos (omega (arith, s.cursor))) (record {
      buffer =
          take_out a b (pad (length (a ++ (x ∷ [])) + length b)) (omega (arith, s.end, s.cursor))
            (omega (arith, s.cursor)) x (omega (arith, s.end))
            (s.buffer ∙ append_assoc a (x ∷ []) _)
          ∙ ap (λ z. a ++ (b ++ z)) (sym (zeros _ _ (omega (arith, s.room))));
      end = omega (arith, s.end);
      cursor = omega (arith, s.cursor);
      room = omega (arith, s.room);
    })

-- A printable byte goes in before the cursor, if one NUL is left behind it then.
pub insert-Shows :
    (l : Line) (a b : List ℕ) (c : ℕ)
    → Shows l a b
    → accepts l c ≡ true
    → length a + length b < terminal_buffer_size - 1
    → Shows (inserted l c) (a ++ (c ∷ [])) b
unfolding inserted
insert-Shows l a b c s h r =
    let n = length-snoc a c in
    rw h (record {
      buffer =
          put_in a b (pad (suc (length a) + length b)) (omega (arith, s.end, s.cursor)) s.cursor 0 c
            (s.buffer ∙ ap (λ z. a ++ (b ++ z)) (zeros _ _ (omega arith)))
          ∙ sym (append_assoc a (c ∷ []) _)
          ∙ ap (λ k. (a ++ (c ∷ [])) ++ (b ++ pad (k + length b))) (sym n);
      end = omega (arith, s.end);
      cursor = omega (arith, s.cursor);
      room = omega arith;
    })

pub left-Shows :
    (l : Line) (a b : List ℕ) (x : ℕ) → Shows l (a ++ (x ∷ [])) b → Shows (move_left l) a (x ∷ b)
unfolding move_left
left-Shows l a b x s =
    let n = length-snoc a x in
    let e : length (a ++ (x ∷ [])) + length b ≡ length a + suc (length b) = omega arith in
    rw (lt→ltb 0 l.cursor_pos (omega (arith, s.cursor))) (record {
      buffer = s.buffer ∙ append_assoc a (x ∷ []) _ ∙ ap (λ k. a ++ (x ∷ (b ++ pad k))) e;
      end = omega (arith, s.end);
      cursor = omega (arith, s.cursor);
      room = omega (arith, s.room);
    })

pub right-Shows :
    (l : Line) (a b : List ℕ) (x : ℕ) → Shows l a (x ∷ b) → Shows (move_right l) (a ++ (x ∷ [])) b
unfolding move_right
right-Shows l a b x s =
    let n = length-snoc a x in
    let e : length a + suc (length b) ≡ length (a ++ (x ∷ [])) + length b = omega arith in
    rw (lt→ltb l.cursor_pos l.buffer_pos (omega (arith, s.end, s.cursor))) (record {
      buffer = s.buffer ∙ ap (λ k. a ++ (x ∷ (b ++ pad k))) e ∙ sym (append_assoc a (x ∷ []) _);
      end = omega (arith, s.end);
      cursor = omega (arith, s.cursor);
      room = omega (arith, s.room);
    })
