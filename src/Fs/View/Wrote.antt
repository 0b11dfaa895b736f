-- ===== src/Fs/View/Wrote.antt =====
-- `fs_write` keeps the table a tree.
use fox_os.Base.{
  ℕ, zero, suc, ◌≤◌, ◌≡◌, refl, sym, ap, ◌∙◌, List, [], ◌∷◌, some, length, arith, get_elem?, modify,
  length-modify,
}
use fox_os.Fs.{max_file_size, File, Fs, dir_at}
use fox_os.Fs.Content.RoundTrip.{wrote}
use fox_os.Fs.Table.Inv.{IsTree}

-- An entry of the table after a write is the old one but for its content and its size.
record IsKept (f g : File) : Type 0 where
  name : g.name ≡ f.name
  type : g.type ≡ f.type
  parent : g.parent_index ≡ f.parent_index
  fits : f.size ≤ max_file_size → g.size ≤ max_file_size
  full : length f.content ≡ max_file_size → length g.content ≡ max_file_size

dir_at-modify :
    (files : List File) (i j : ℕ) (content : List ℕ) (n : ℕ)
    → dir_at (modify files i (λ g. record g { content = content; size = n })) j ≡ dir_at files j
dir_at-modify [] i j content n = refl
dir_at-modify (f ∷ files) zero zero content n = refl
dir_at-modify (f ∷ files) zero (suc j) content n = refl
dir_at-modify (f ∷ files) (suc i) zero content n = refl
dir_at-modify (f ∷ files) (suc i) (suc j) content n = dir_at-modify files i j content n

changed-IsKept :
    (f g : File) (n : ℕ) (content : List ℕ)
    → n ≤ max_file_size
    → length content ≡ max_file_size
    → record f { content = content; size = n } ≡ g
    → IsKept f g
changed-IsKept f g n content l c e = record {
  name = sym (ap File.name e);
  type = sym (ap File.type e);
  parent = sym (ap File.parent_index e);
  fits = λ h. omega (arith, ap File.size e);
  full = λ h. sym (ap (λ h. length h.content) e) ∙ c;
}

same-IsKept : (f g : File) → f ≡ g → IsKept f g
same-IsKept f g e = record {
  name = sym (ap File.name e);
  type = sym (ap File.type e);
  parent = sym (ap File.parent_index e);
  fits = λ h. omega (arith, ap File.size e);
  full = λ h. sym (ap (λ h. length h.content) e) ∙ h;
}

entry-modify :
    (files : List File) (i j n : ℕ) (content : List ℕ) (g : File)
    → n ≤ max_file_size
    → length content ≡ max_file_size
    → get_elem? (modify files i (λ g. record g { content = content; size = n })) j ≡ some g
    → (f : File) × (get_elem? files j ≡ some f) × IsKept f g
entry-modify [] i j n content g l c e = absurd (cc e)
entry-modify (f ∷ files) zero zero n content g l c e =
    (f, refl, changed-IsKept f g n content l c (ground arith))
entry-modify (f ∷ files) zero (suc j) n content g l c e = (g, e, same-IsKept g g refl)
entry-modify (f ∷ files) (suc i) zero n content g l c e = (f, refl, same-IsKept f g (ground arith))
entry-modify (f ∷ files) (suc i) (suc j) n content g l c e =
    entry-modify files i j n content g l c e

pub wrote-IsTree :
    (fs : Fs) (i n : ℕ) (content : List ℕ)
    → IsTree fs
    → n ≤ max_file_size
    → length content ≡ max_file_size
    → IsTree (wrote fs i content n)
wrote-IsTree fs i n content v l c = record {
  table = record {
    cells = length-modify fs.files i _ ∙ v.table.cells;
    contents = λ j g e.
        let (f, h, k) = entry-modify fs.files i j n content g l c e in
        k.full (v.table.contents j f h);
  };
  not_empty = v.not_empty;
  fits = v.fits;
  root = λ g e.
      let (f, h, k) = entry-modify fs.files i 0 n content g l c e in
      (k.parent ∙ (v.root f h).0, k.name ∙ (v.root f h).1);
  parents = λ j g b e.
      let (f, h, k) = entry-modify fs.files i j n content g l c e in
      let (d, p, s, z) = v.parents j f b h in
      (
        dir_at-modify fs.files i g.parent_index content n ∙ ap (dir_at fs.files) k.parent ∙ d,
        λ q. omega (arith, p q, k.parent),
        omega (arith, s, ap (λ m. length {A = ℕ} m) k.name),
        k.fits z,
      );
  unique = λ a b g g' la lb e e' p s.
      let (f, h, k) = entry-modify fs.files i a n content g l c e in
      let (f', h', k') = entry-modify fs.files i b n content g' l c e' in
      v.unique a b f f' la lb h h' (sym k.parent ∙ p ∙ k'.parent) (rw (k.name, k'.name) at s);
}
