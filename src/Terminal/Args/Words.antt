-- ===== src/Terminal/Args/Words.antt =====
-- The arguments of a command.
use fox_os.Base.{
  ℕ, zero, suc, ◌<◌, ◌≡◌, ◌≢◌, refl, ◌∙◌, List, [], ◌∷◌, ◌++◌, ret, length, replicate, All, lt→ltb,
  ne→==, need-ret,
}
use fox_os.Terminal.Args.{take_word, skip_spaces, parse_args}

abbrev pub IsWord : List ℕ → Type 0
IsWord word = All (λ c. c ≢ b' ') word

-- A text whose first byte is no space.
abbrev pub IsTrimmed : List ℕ → Type 0
IsTrimmed [] = Unit
IsTrimmed (c ∷ text) = c ≢ b' '

take_word-word :
    (w : List ℕ) (text : List ℕ) → IsWord w → take_word (w ++ (b' ' ∷ text)) ≡ (w, b' ' ∷ text)
take_word-word [] text h = refl
take_word-word (c ∷ w) text h = rw (take_word-word w text h.1, ne→== c b' ' h.0) refl

skip_spaces-trimmed : (text : List ℕ) → IsTrimmed text → skip_spaces text ≡ text
skip_spaces-trimmed [] h = refl
skip_spaces-trimmed (c ∷ text) h = rw (ne→== c b' ' h) refl

skip_spaces-replicate :
    (n : ℕ) (text : List ℕ) → IsTrimmed text → skip_spaces (replicate n b' ' ++ text) ≡ text
skip_spaces-replicate zero text h = skip_spaces-trimmed text h
skip_spaces-replicate (suc n) text h = skip_spaces-replicate n text h

-- `parse_args` of a command, a first argument and the rest, with one or more spaces behind the
-- command and behind the first argument, gives the first argument and the rest, and writes past no
-- array: the command and the first argument have no spaces, the first argument is not empty, the
-- rest does not begin with a space, and both arguments are shorter than 256 bytes.
pub parse_args_splits :
    (name first rest : List ℕ) (c n m : ℕ)
    → IsWord name
    → IsWord (c ∷ first)
    → IsTrimmed rest
    → length (c ∷ first) < 256
    → length rest < 256
    → parse_args
        (name ++ (replicate (suc n) b' ' ++ ((c ∷ first) ++ (replicate (suc m) b' ' ++ rest))))
      ≡ ret (c ∷ first, rest)
unfolding parse_args
parse_args_splits name first rest c n m w f t l k =
    rw
      (
        take_word-word name (replicate n b' ' ++ ((c ∷ first) ++ (replicate (suc m) b' ' ++ rest)))
            w,
        skip_spaces-replicate n ((c ∷ first) ++ (replicate (suc m) b' ' ++ rest)) f.0,
        take_word-word (c ∷ first) (replicate m b' ' ++ rest) f,
        skip_spaces-replicate m rest t,
      )
      (need-ret (lt→ltb (length (c ∷ first)) 256 l) ∙ need-ret (lt→ltb (length rest) 256 k))

take_word-all : (w : List ℕ) → IsWord w → take_word w ≡ (w, [])
take_word-all [] h = refl
take_word-all (c ∷ w) h = rw (take_word-all w h.1, ne→== c b' ' h.0) refl

-- A command and one argument.
pub parse_args_one :
    (name first : List ℕ) (c : ℕ)
    → IsWord name
    → IsWord (c ∷ first)
    → length (c ∷ first) < 256
    → parse_args (name ++ (b' ' ∷ c ∷ first)) ≡ ret (c ∷ first, [])
unfolding parse_args
parse_args_one name first c w f l =
    rw
      (
        take_word-word name (c ∷ first) w,
        skip_spaces-trimmed (c ∷ first) f.0,
        take_word-all (c ∷ first) f,
      )
      (need-ret (lt→ltb (length (c ∷ first)) 256 l))
