-- ===== src/Fs/Tests.antt =====
-- Concrete tables of files: a fresh one, one with the directory `docs`, one with the file `note` in it, and
-- small ones for the removal of entries.
use fox_os.Base.{
  ℕ, zero, suc, ◌+◌, ◌≡◌, ◌≢◌, ◌≤◌, refl, ◌∙◌, arith, List, [], ◌∷◌, ◌++◌, map, some, ret, ◌>>=◌,
  codes, replicate, length-replicate, length, get_elem?, modify, drop,
}
use fox_os.Fs.{
  no_parent, max_file_size, max_files, FileType, file_type_none, file_type_file, file_type_dir,
  File, Fs, live, find_child,
}
use fox_os.Fs.Table.{fs_init, fs_create_file, clear, make_root}
use fox_os.Fs.Table.Inv.{IsTable, IsTree, init-IsTree, create_file-IsTree}
use fox_os.Fs.Lookup.{slash, get_next_path_component, walk, fs_parse_path}
use fox_os.Fs.Lookup.Append.{NoSlash}
use fox_os.Fs.Lookup.Resolve.{components, resolve, parse_path_resolves}
use fox_os.Fs.Content.{fs_write, fs_read}
use fox_os.Fs.Content.RoundTrip.{read-write}
use fox_os.Fs.Removal.{delete_file_at, delete_at}
use fox_os.Fs.Removal.Unlink.{delete-unlinks}
use fox_os.Fs.Removal.Reindex.{without, delete_file_misplaces}
use fox_os.Fs.Removal.Undo.{create-delete}
use fox_os.Fs.Listing.{entry_line}
use fox_os.Fs.Listing.Complete.{listing}
use fox_os.Fs.Entries.{create_at_path, last_slash, last_slash_from, create_from}
use fox_os.Fs.Entries.Parent.{create_drops_byte}
use fox_os.Text.{strcmp}

abbrev storage : List ℕ
storage = replicate max_file_size 0

abbrev unused : File
unused = record { name = []; type = file_type_none; size = 0; parent_index = 0; content = storage }

abbrev pub array : Fs
array = record { files = replicate max_files unused; file_count = 0 }

get_elem?-replicate :
    {A : Type 0} (n i : ℕ) (a b : A) → get_elem? (replicate n a) i ≡ some b → b ≡ a
get_elem?-replicate zero i a b h = ground arith
get_elem?-replicate (suc n) zero a b h = ground arith
get_elem?-replicate (suc n) (suc i) a b h = get_elem?-replicate n i a b h

-- The concrete lists above are not evaluated in the proofs about them.
replicate-IsTable : (f : File) → length f.content ≡ max_file_size → IsTable (replicate max_files f)
replicate-IsTable f h = record {
  cells = length-replicate max_files f;
  contents = λ i g e. ap_content (get_elem?-replicate max_files i f g e) ∙ h;
}
  where
    ap_content : {f g : File} → g ≡ f → length g.content ≡ length f.content
    ap_content e = ground arith

pub array-IsTable : IsTable array.files
array-IsTable = replicate-IsTable unused (length-replicate {A = ℕ} max_file_size 0)

abbrev pub booted : Fs
booted = record { files = modify (map clear array.files) 0 make_root; file_count = 1 }

pub booted-IsTree : IsTree booted
unfolding fs_init
booted-IsTree = (init-IsTree array array-IsTable).0

abbrev entry : List ℕ → FileType → ℕ → File → File
entry name type parent f = record f { name = name; type = type; size = 0; parent_index = parent }

-- The names of a directory, of a file in it and of another file.
abbrev pub docs : List ℕ
docs = codes "docs"

abbrev pub note : List ℕ
note = codes "note"

abbrev todo : List ℕ
todo = codes "todo"

abbrev pub with_dir : Fs
with_dir = record { files = modify booted.files 1 (entry docs file_type_dir 0); file_count = 2 }

pub make_dir : fs_create_file booted docs file_type_dir 0 ≡ ret (some 1, with_dir)
unfolding fs_create_file find_child strcmp
make_dir = refl

pub with_dir-IsTree : IsTree with_dir
with_dir-IsTree =
    create_file-IsTree booted docs file_type_dir 0 booted-IsTree (omega arith) make_dir

abbrev pub with_file : Fs
with_file = record { files = modify with_dir.files 2 (entry note file_type_file 1); file_count = 3 }

make_file : fs_create_file with_dir note file_type_file 1 ≡ ret (some 2, with_file)
unfolding fs_create_file find_child strcmp
make_file = refl

create_file-IsTree_example : IsTree with_file
create_file-IsTree_example =
    create_file-IsTree with_dir note file_type_file 1 with_dir-IsTree (omega arith) make_file

pub with_file-IsTree : IsTree with_file
with_file-IsTree =
    create_file-IsTree with_dir note file_type_file 1 with_dir-IsTree (omega arith) make_file

pub note-NoSlash : NoSlash note
note-NoSlash = (ground arith, (ground arith, (ground arith, (ground arith, tt))))

abbrev pub note_path : List ℕ
note_path = codes "/docs" ++ (slash ∷ note)

parse_path_resolves_example :
    fs_parse_path with_file note_path ≡ ret (resolve with_file 0 (components note_path))
unfolding components
parse_path_resolves_example =
    parse_path_resolves with_file note_path (omega arith, (omega arith, tt))

-- Both sides of the equation above are the new entry.
note_found : resolve with_file 0 (components note_path) ≡ some 2
unfolding components resolve find_child strcmp
note_found = refl

create_note :
    create_at_path file_type_file with_dir (codes "/docs" ++ (slash ∷ note))
    ≡ ret (some 2, with_file)
unfolding create_at_path last_slash last_slash_from create_from fs_parse_path walk
    get_next_path_component fs_create_file find_child strcmp
create_note = refl

create-delete_example :
    (fs'' : Fs) × (delete_file_at with_file (some 2) ≡ ret (some 0, fs''))
    × (fs''.file_count ≡ with_dir.file_count)
    × (live fs'' ≡ live with_dir)
create-delete_example =
    create-delete with_dir note file_type_file 1 with_dir-IsTree (omega arith) make_file

listed_note : listing 1 (drop 1 (live with_file)) ≡ codes "note\n"
unfolding listing entry_line
listed_note = refl

create_drops_byte_example :
    create_at_path file_type_dir booted note ≡ fs_create_file booted (codes "ote") file_type_dir 0
create_drops_byte_example =
    create_drops_byte file_type_dir booted b'n' b'o' (codes "te") note-NoSlash (omega arith)

-- A file in the root, with its contents.
abbrev root_dir : File
root_dir = record { name = []; type = file_type_dir; size = 0; parent_index = 0; content = storage }

abbrev plain : List ℕ → FileType → ℕ → File
plain name type parent = entry name type parent unused

abbrev small : Fs
small = record { files = root_dir ∷ plain note file_type_file 0 ∷ []; file_count = 2 }

note_in_small : fs_parse_path small note ≡ ret (some 1)
unfolding fs_parse_path walk get_next_path_component find_child strcmp
note_in_small = refl

read-write_example :
    (fs_write small note (codes "text") 4 >>= λ r. fs_read r.1 note (replicate 6 0) 6)
    ≡ ret (some 4, codes "text" ++ (0 ∷ 0 ∷ []))
read-write_example =
    read-write small note 1 (plain note file_type_file 0) (codes "text") (replicate 6 0) 4 6
      note_in_small refl refl (length-replicate {A = ℕ} max_file_size 0) (omega arith) (omega arith)

-- Two directories in one another and a file in the inner one, behind another file.
abbrev nested : Fs
nested = record {
  files =
      root_dir
      ∷ plain todo file_type_file 0
      ∷ plain docs file_type_dir 0
      ∷ plain docs file_type_dir 2
      ∷ plain docs file_type_dir 3
      ∷ plain note file_type_file 4
      ∷ [];
  file_count = 6;
}

delete_file_misplaces_example :
    (fs' : Fs) × (delete_file_at nested (some 1) ≡ ret (some 0, fs'))
    × (h : File) × (get_elem? (live fs') 4 ≡ some h)
    × (h.parent_index + 2 ≤ 4)
    × (live fs' ≢ without 1 (live nested))
delete_file_misplaces_example =
    delete_file_misplaces nested 0 4 (plain note file_type_file 4) (omega arith) (omega arith) refl
      refl (omega arith) (omega arith)

delete-unlinks_example :
    (fs' : Fs) × (delete_at nested (some 2) ≡ (some 0, fs'))
    × (get_elem? fs'.files 2 ≡ some (clear (plain docs file_type_dir 0)))
    × ((q : ℕ) (m : List ℕ) → q ≢ no_parent → find_child fs' q m ≢ some 2)
    × ((j : ℕ) → j ≢ 2 → get_elem? fs'.files j ≡ get_elem? nested.files j)
    × (fs'.file_count ≡ 6)
delete-unlinks_example = delete-unlinks nested 1 (plain docs file_type_dir 0) refl
