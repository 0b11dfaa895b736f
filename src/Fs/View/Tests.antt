-- ===== src/Fs/View/Tests.antt =====
-- The table with the file `note` in the directory `docs`, as its users see it.
use fox_os.Base.{◌≡◌, refl, arith, ◌∷◌, ◌++◌, ret, codes, replicate, some, take, min, true}
use fox_os.Fs.{max_file_size, file_type_file, Fs, find_child, live}
use fox_os.Text.{strcmp}
use fox_os.Fs.Content.{fs_read, fs_write}
use fox_os.Fs.Entries.{create_at_path}
use fox_os.Fs.Lookup.{slash, fs_parse_path, walk, get_next_path_component}
use fox_os.Fs.Lookup.Resolve.{components, resolve}
use fox_os.Fs.Table.Inv.{IsTree}
use fox_os.Fs.Tests.{
  note, note_path, note-NoSlash, with_dir, with_dir-IsTree, with_file, with_file-IsTree,
}
use fox_os.Fs.Removal.{has_child, fs_delete_file}
use fox_os.Fs.Table.Inv.{live_entry, parent-lt}
use fox_os.Fs.View.{view}
use fox_os.Fs.View.Content.{read_spec, read_refines}
use fox_os.Fs.View.Create.{is_directory, may_create, Creates}
use fox_os.Fs.View.Entries.{create_refines}
use fox_os.Fs.Listing.{fs_list_dir}
use fox_os.Fs.View.Listed.{HasTexts, Lists, list_refines}
use fox_os.Fs.View.Remove.{Removes, IsNear, remove_refines}
use fox_os.Fs.View.Update.{IsUpdate}
use fox_os.Fs.View.Write.{write_result, overwrite, write_refines}

read_refines_example :
    fs_read with_file note_path (replicate 6 7) 6
    ≡ ret (read_spec (view with_file (components note_path)) (replicate 6 7) 6)
unfolding components
read_refines_example =
    read_refines with_file note_path (replicate 6 7) 6 with_file-IsTree
      (omega arith, (omega arith, tt)) (omega arith)

write_refines_example :
    let n = min 4 max_file_size in
    let old = view with_file (components note_path) in
    (fs' : Fs) × (fs_write with_file note_path (codes "text") 4 ≡ ret (write_result old n, fs'))
    × IsTree fs'
    × IsUpdate
        (view with_file)
        (view fs')
        (components note_path)
        (overwrite old (take n (codes "text")))
unfolding components
write_refines_example =
    write_refines with_file note_path (codes "text") 4 with_file-IsTree (ground arith)
      (omega arith, (omega arith, tt)) (omega arith)

create_refines_example :
    Creates with_dir file_type_file
      (components (codes "/docs"))
      note
      (may_create with_dir (components (codes "/docs")) note)
      (create_at_path file_type_file with_dir (codes "/docs" ++ (slash ∷ note)))
unfolding components
create_refines_example =
    create_refines file_type_file with_dir (codes "/docs") note with_dir-IsTree (ground arith)
      (ground arith) note-NoSlash (omega arith) (omega arith) (omega arith, tt)

-- The entry above may be created: there is nothing of that name in `docs`.
free_name : may_create with_dir (components (codes "/docs")) note ≡ true
unfolding may_create view components resolve find_child strcmp
free_name = refl

note_parsed : fs_parse_path with_file note_path ≡ ret (some 2)
unfolding fs_parse_path walk get_next_path_component find_child strcmp
note_parsed = refl

note-IsNear : IsNear with_file 2
note-IsNear i f e =
    let (l, g) = live_entry with_file i f e in omega (arith, parent-lt with_file-IsTree i f l g)

remove_refines_example :
    Removes with_file
      (components note_path)
      (has_child (live with_file) 2)
      (fs_delete_file with_file note_path)
unfolding components
remove_refines_example =
    remove_refines with_file note_path 1 with_file-IsTree (ground arith)
      (omega arith, (omega arith, tt)) note_parsed note-IsNear

-- The names in the table are texts.
with_file-HasTexts : HasTexts with_file
with_file-HasTexts = (tt, (ground arith, (ground arith, tt)))

list_refines_example :
    Lists with_file
      (components (codes "/docs"))
      (is_directory (view with_file (components (codes "/docs"))))
      (fs_list_dir with_file (codes "/docs") 66048)
unfolding components
list_refines_example =
    list_refines with_file (codes "/docs") 66048 with_file-IsTree with_file-HasTexts
      (omega arith, tt) (omega arith) (omega arith)
