-- ===== src/Screen/Cells.antt =====
-- What the loops over the cells leave in each of them.
use native.Mathlib.Decide.{ℕ_discrete}
use fox_os.Base.{
  ℕ, zero, suc, ◌+◌, ◌*◌, ◌<◌, ◌≤◌, ◌≡◌, refl, List, arith, length, get_or, set, get_or-set_self,
  get_or-set_ne, length-set, ◌∙◌, ap, ◌-◌, ret, ◌>>=◌, load-get_or, store-set,
}
use fox_os.Screen.{Screen, vga_width, vga_height, vga_size, copy_up, fill, blank, vga_scroll}

-- The cells after the loops, where these stay inside them.
moved_up : ℕ → ℕ → List ℕ → List ℕ
moved_up zero i cells = cells
moved_up (suc n) i cells = moved_up n (suc i) (set cells i (get_or cells (i + vga_width) 0))

pub filled : ℕ → ℕ → ℕ → List ℕ → List ℕ
filled zero i entry cells = cells
filled (suc n) i entry cells = filled n (suc i) entry (set cells i entry)

copy_up-ret :
    (n i : ℕ) (cells : List ℕ)
    → i + n + vga_width ≤ length cells
    → copy_up n i cells ≡ ret (moved_up n i cells)
unfolding copy_up moved_up
copy_up-ret zero i cells l = refl
copy_up-ret (suc n) i cells l =
    let c = get_or cells (i + vga_width) 0 in
    rw (load-get_or cells (i + vga_width) 0 (omega arith), store-set cells i c (omega arith))
      (copy_up-ret n (suc i) (set cells i c) (omega (arith, length-set cells i c)))

pub fill-ret :
    (n i e : ℕ) (cells : List ℕ)
    → i + n ≤ length cells
    → fill n i e cells ≡ ret (filled n i e cells)
unfolding fill filled
fill-ret zero i e cells l = refl
fill-ret (suc n) i e cells l =
    rw (store-set cells i e (omega arith))
      (fill-ret n (suc i) e (set cells i e) (omega (arith, length-set cells i e)))

-- A screen of 2000 cells after `vga_scroll`.
pub scrolled : Screen → Screen
scrolled s = record s {
  cells =
      filled vga_width ((vga_height - 1) * vga_width) (blank s)
        (moved_up ((vga_height - 1) * vga_width) 0 s.cells);
}

length-moved_up : (n i : ℕ) (cells : List ℕ) → length (moved_up n i cells) ≡ length cells
unfolding moved_up
length-moved_up zero i cells = refl
length-moved_up (suc n) i cells = length-moved_up n (suc i) _ ∙ length-set cells i _

pub length-filled : (n i e : ℕ) (cells : List ℕ) → length (filled n i e cells) ≡ length cells
unfolding filled
length-filled zero i e cells = refl
length-filled (suc n) i e cells = length-filled n (suc i) e _ ∙ length-set cells i e

filled_before :
    (n i e : ℕ) (cells : List ℕ) (j : ℕ)
    → j < i
    → get_or (filled n i e cells) j 0 ≡ get_or cells j 0
unfolding filled
filled_before zero i e cells j h = refl
filled_before (suc n) i e cells j h =
    filled_before n (suc i) e (set cells i e) j (omega arith)
    ∙ get_or-set_ne cells i j e 0 (λ x. omega arith)

filled_in :
    (n i e : ℕ) (cells : List ℕ) (j : ℕ)
    → i ≤ j
    → j < i + n
    → i + n ≤ length cells
    → get_or (filled n i e cells) j 0 ≡ e
unfolding filled
filled_in zero i e cells j h k l = absurd (omega arith)
filled_in (suc n) i e cells j h k l = elim (ℕ_discrete i j) [
  | yes p ↦ rw (← p) (
      filled_before n (suc i) e (set cells i e) i (omega arith)
      ∙ get_or-set_self cells i e 0 (omega arith))
  | no p ↦
      filled_in n (suc i) e (set cells i e) j (omega arith) (omega arith)
        (omega (arith, length-set cells i e))
]

moved_up_before :
    (n i : ℕ) (cells : List ℕ) (j : ℕ) → j < i → get_or (moved_up n i cells) j 0 ≡ get_or cells j 0
unfolding moved_up
moved_up_before zero i cells j h = refl
moved_up_before (suc n) i cells j h =
    moved_up_before n (suc i) (set cells i _) j (omega arith)
    ∙ get_or-set_ne cells i j _ 0 (λ x. omega arith)

-- Each cell is read before it is written.
moved_up_in :
    (n i : ℕ) (cells : List ℕ) (j : ℕ)
    → i ≤ j
    → j < i + n
    → i + n ≤ length cells
    → get_or (moved_up n i cells) j 0 ≡ get_or cells (j + vga_width) 0
unfolding moved_up
moved_up_in zero i cells j h k l = absurd (omega arith)
moved_up_in (suc n) i cells j h k l =
    let v = get_or cells (i + vga_width) 0 in
    elim (ℕ_discrete i j) [
      | yes p ↦ rw (← p) (
          moved_up_before n (suc i) (set cells i v) i (omega arith)
          ∙ get_or-set_self cells i v 0 (omega arith))
      | no p ↦
          moved_up_in n (suc i) (set cells i v) j (omega arith) (omega arith)
            (omega (arith, length-set cells i v))
          ∙ get_or-set_ne cells i (j + vga_width) v 0 (λ x. omega arith)
    ]

pub vga_scroll-ret : (s : Screen) → length s.cells ≡ vga_size → vga_scroll s ≡ ret (scrolled s)
unfolding vga_scroll scrolled
vga_scroll-ret s l = rw (copy_up-ret 1920 0 s.cells (omega arith)) (
    ap (λ r. r >>= λ cells'. ret (record s { cells = cells' }))
      (fill-ret 80 1920 (blank s) (moved_up 1920 0 s.cells)
        (omega (arith, length-moved_up 1920 0 s.cells))))

pub scrolled-cursor_x : (s : Screen) → (scrolled s).cursor_x ≡ s.cursor_x
unfolding scrolled
scrolled-cursor_x s = refl

pub length-scrolled : (s : Screen) → length (scrolled s).cells ≡ length s.cells
unfolding scrolled
length-scrolled s = length-filled 80 1920 (blank s) _ ∙ length-moved_up 1920 0 s.cells

-- The rows 1 to 24 moved up by one, and the last row of one entry.
abbrev pub IsScrolled : (old : List ℕ) (entry : ℕ) (new : List ℕ) → Type 0
IsScrolled old entry new =
    ((j : ℕ) → j < (vga_height - 1) * vga_width → get_or new j 0 ≡ get_or old (j + vga_width) 0)
    × ((j : ℕ) → (vga_height - 1) * vga_width ≤ j → j < vga_size → get_or new j 0 ≡ entry)

pub scrolled-IsScrolled :
    (s : Screen) → length s.cells ≡ vga_size → IsScrolled s.cells (blank s) (scrolled s).cells
unfolding scrolled
scrolled-IsScrolled s l =
    let up = moved_up 1920 0 s.cells in
    let size : length up ≡ 2000 = length-moved_up 1920 0 s.cells ∙ l in
    (
      λ j k.
          filled_before 80 1920 (blank s) up j (omega arith)
          ∙ moved_up_in 1920 0 s.cells j (omega arith) (omega arith) (omega arith),
      λ j h k. filled_in 80 1920 (blank s) up j (omega arith) (omega arith) (omega arith),
    )
