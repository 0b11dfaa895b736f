-- ===== src/Fs/Removal/Unlink.antt =====
-- `fs_delete`, which leaves the entry in its place.
use fox_os.Base.{
  ℕ, suc, ◌≡◌, ◌≢◌, refl, sym, ◌∙◌, true, List, some, arith, find_index_sound, get_elem?,
  get_elem?-modify_self, get_elem?-modify_ne, Bool-cases, inl, inr, ◌==◌, ==→eq,
}
use fox_os.Fs.{no_parent, File, Fs, live, is_named, find_child}
use fox_os.Fs.Table.{clear}
use fox_os.Fs.Table.Inv.{live_entry}
use fox_os.Fs.Removal.{delete_at}

named-parent : (q : ℕ) (m : List ℕ) (g : File) → is_named q m g ≡ true → g.parent_index ≡ q
named-parent q m g h = elim (Bool-cases (g.parent_index == q)) [
  | inl e ↦ ==→eq g.parent_index q e
  | inr e ↦ absurd (ground arith)
]

-- `fs_delete` of an entry that is not the root: no lookup in a directory finds it any more, though
-- its cell stays in use; every other cell and the count stay as they are.
pub delete-unlinks :
    (fs : Fs) (k : ℕ) (f : File)
    → get_elem? fs.files (suc k) ≡ some f
    → (fs' : Fs) × (delete_at fs (some (suc k)) ≡ (some 0, fs'))
      × (get_elem? fs'.files (suc k) ≡ some (clear f))
      × ((q : ℕ) (m : List ℕ) → q ≢ no_parent → find_child fs' q m ≢ some (suc k))
      × ((j : ℕ) → j ≢ suc k → get_elem? fs'.files j ≡ get_elem? fs.files j)
      × (fs'.file_count ≡ fs.file_count)
unfolding delete_at find_child
delete-unlinks fs k f h =
    let fs' = (delete_at fs (some (suc k))).1 in
    let own : get_elem? fs'.files (suc k) ≡ some (clear f) =
      get_elem?-modify_self fs.files (suc k) clear h in
    let cleared : (g : File) → get_elem? fs'.files (suc k) ≡ some g → g.parent_index ≡ no_parent =
      λ g at. ground (arith, own) in
    (
      fs',
      refl,
      own,
      λ q m n e.
          let (g, at, named) = find_index_sound (is_named q m) (live fs') e in
          let at' = (live_entry fs' (suc k) g at).1 in
          n (sym (named-parent q m g named) ∙ cleared g at'),
      λ j n. get_elem?-modify_ne fs.files (suc k) j clear (λ z. n (sym z)),
      refl,
    )
