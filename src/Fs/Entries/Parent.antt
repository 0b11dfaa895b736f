-- ===== src/Fs/Entries/Parent.antt =====
-- The split of a path into its directory and a name, and what follows for `fs_mkdir` and
-- `fs_create`.
use fox_os.Base.{
  ℕ, suc, ◌+◌, ◌*◌, ◌<◌, ◌≡◌, refl, ap, ◌∙◌, List, [], ◌∷◌, ◌++◌, length, arith, take, drop,
  if◌then◌else◌, lt→ltb, ◌==◌, ne→==,
}
use fox_os.Fs.{max_filename, FileType, Fs}
use fox_os.Fs.Lookup.{slash, fs_parse_path}
use fox_os.Fs.Lookup.Append.{NoSlash}
use fox_os.Fs.Table.{fs_create_file}
use fox_os.Fs.Entries.{last_slash_from, last_slash, or_root, add_entry, create_at_path, create_from}

last_slash_from-NoSlash :
    (name : List ℕ) (i last : ℕ) → NoSlash name → last_slash_from i last name ≡ last
unfolding last_slash_from
last_slash_from-NoSlash [] i last h = refl
last_slash_from-NoSlash (c ∷ name) i last h =
    ground (arith, ne→== c slash h.0, last_slash_from-NoSlash name (suc i) last h.1)

-- The last slash stands behind the directory.
last_slash_from-append :
    (dir name : List ℕ) (i last : ℕ)
    → NoSlash name
    → last_slash_from i last (dir ++ (slash ∷ name)) ≡ i + length dir
unfolding last_slash_from
last_slash_from-append [] name i last h = omega (arith, last_slash_from-NoSlash name (suc i) i h)
last_slash_from-append (c ∷ dir) name i last h =
    omega (arith, last_slash_from-append dir name (suc i) (if c == slash then i else last) h)

pub take-append : (a b : List ℕ) → take (length a) (a ++ b) ≡ a
take-append [] b = refl
take-append (x ∷ a) b = ap (x ∷◌) (take-append a b)

pub drop-append : (a b : List ℕ) (c : ℕ) → drop (suc (length a)) (a ++ (c ∷ b)) ≡ b
drop-append [] b c = refl
drop-append (x ∷ a) b c = drop-append a b c

create_at_path-create_from :
    (type : FileType) (fs : Fs) (dir name : List ℕ)
    → create_at_path type fs (dir ++ (slash ∷ name))
      ≡ create_from type fs (dir ++ (slash ∷ name)) (last_slash (dir ++ (slash ∷ name)))
unfolding create_at_path
create_at_path-create_from type fs [] name = refl
create_at_path-create_from type fs (c ∷ dir) name = refl

pub last_slash-append :
    (dir name : List ℕ) → NoSlash name → last_slash (dir ++ (slash ∷ name)) ≡ length dir
unfolding last_slash
last_slash-append dir name n = omega (arith, last_slash_from-append dir name 0 0 n)

-- What both functions do with a path that has a slash: the name behind the last one is created in
-- the directory before it, in the root if nothing stands before it; an empty name is refused.
pub create_at_path-split :
    (type : FileType) (fs : Fs) (dir name : List ℕ)
    → NoSlash name
    → length dir < max_filename * 2
    → length name < max_filename
    → create_at_path type fs (dir ++ (slash ∷ name)) ≡ add_entry fs type (or_root dir) name
unfolding create_from
create_at_path-split type fs dir name n l k =
    create_at_path-create_from type fs dir name
    ∙ ap (create_from type fs (dir ++ (slash ∷ name))) (last_slash-append dir name n)
    ∙ rw (
      take-append,
      drop-append,
      lt→ltb (length dir) (max_filename * 2) l,
      lt→ltb (length name) max_filename k,
    )

-- Both functions drop the first byte of a path that has no slash: they create the rest of it in the
-- root. The byte is dropped because `last_slash` points to it.
pub create_drops_byte :
    (type : FileType) (fs : Fs) (c d : ℕ) (name : List ℕ)
    → NoSlash (c ∷ d ∷ name)
    → length (d ∷ name) < max_filename
    → create_at_path type fs (c ∷ d ∷ name) ≡ fs_create_file fs (d ∷ name) type 0
unfolding create_at_path create_from last_slash last_slash_from fs_parse_path
create_drops_byte type fs c d name n l = rw (
  ne→== c slash n.0,
  ne→== d slash n.1.0,
  last_slash_from-NoSlash name 2 0 n.1.1,
  lt→ltb (length (d ∷ name)) max_filename l,
)
