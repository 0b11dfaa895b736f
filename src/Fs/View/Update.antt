-- ===== src/Fs/View/Update.antt =====
-- A change of the files at one place.
use fox_os.Base.{ℕ, ◌≡◌, ◌≢◌, List, All, Option}
use fox_os.Fs.View.{Node, IsName}

-- The files, by the lists of names that lead to them.
abbrev pub Tree : Type 0
Tree = List (List ℕ) → Option Node

-- The second differs from the first at `p` only, where it has `node`.
pub record IsUpdate (t t' : Tree) (p : List (List ℕ)) (node : Option Node) : Type 0 where
  pub here : t' p ≡ node
  pub elsewhere : (q : List (List ℕ)) → All IsName q → q ≢ p → t' q ≡ t q
