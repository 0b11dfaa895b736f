-- ===== src/System/Tests/Reached.antt =====
-- States that rounds lead to, and a file with no name.
use fox_os.Base.{
  ℕ, ◌+◌, ◌≡◌, ◌≢◌, refl, true, arith, List, [], ◌∷◌, ◌++◌, All, none, some, ret, codes,
}
use fox_os.Fs.{find_child, file_type_file}
use fox_os.Fs.Entries.{create_at_path}
use fox_os.Fs.Lookup.{slash, fs_parse_path, walk, get_next_path_component}
use fox_os.Fs.Lookup.Resolve.{components, resolve}
use fox_os.Fs.Removal.{delete_file_at}
use fox_os.Fs.Tests.{with_dir, with_dir-IsTree}
use fox_os.Fs.View.{IsName, view}
use fox_os.Fs.{Fs}
use fox_os.Keyboard.{key_left}
use fox_os.System.{System}
use fox_os.Fs.View.Create.{is_directory}
use fox_os.System.ChangeDir.{Changes, target, cd_refines}
use fox_os.System.Files.{touch_at, cd_to}
use fox_os.System.Nameless.{touch_nameless}
use fox_os.System.Start.{IsTree-IsSound, root-IsPath}
use fox_os.System.Tests.{system, waiting, screen-OnScreen}
use fox_os.Terminal.Args.{build_path}
use fox_os.Text.{strcmp}

-- The key with the arrow to the left, pressed and released.
abbrev pressed_left : System
pressed_left = record waiting {
  keyboard = record waiting.keyboard { last_scancode = key_left; key_held = true };
}

docs_slash : build_path (codes "/") (codes "docs/") ≡ ret (codes "/docs" ++ (slash ∷ []))
unfolding build_path
docs_slash = refl

docs_parsed : fs_parse_path with_dir (codes "/docs") ≡ ret (some 1)
unfolding fs_parse_path walk get_next_path_component find_child strcmp
docs_parsed = refl

no_nameless : find_child with_dir 1 [] ≡ none
unfolding find_child strcmp
no_nameless = refl

touch_nameless_example :
    (create_at_path file_type_file with_dir (codes "/docs" ++ (slash ∷ [])) ≡ ret (none, with_dir))
    × (fs' : Fs) × (touch_at (system with_dir) (codes "docs/")
        ≡ ret (record (system with_dir) { fs = fs' }))
    × (fs'.file_count ≡ with_dir.file_count + 1)
    × ((names : List (List ℕ)) → All IsName names → resolve fs' 0 names ≢ some with_dir.file_count)
    × (delete_file_at fs' (some 1) ≡ ret (none, fs'))
touch_nameless_example =
    touch_nameless (system with_dir) (codes "docs/") (codes "/docs") 0 with_dir-IsTree docs_slash
      (omega arith) docs_parsed (omega arith) (omega arith) refl no_nameless

cd_refines_example :
    Changes
      (system with_dir)
      (target (system with_dir) (codes "docs"))
      (is_directory (view with_dir (target (system with_dir) (codes "docs"))))
      (cd_to (system with_dir) (codes "docs"))
cd_refines_example =
    cd_refines (system with_dir) 1 (codes "docs") (omega arith)
      (record {
        on_screen = screen-OnScreen;
        sound = IsTree-IsSound with_dir-IsTree;
        directory = root-IsPath (codes "/") refl;
      })
      (omega arith) (omega arith)

-- A directory stands there.
docs_stands : is_directory (view with_dir (target (system with_dir) (codes "docs"))) ≡ true
unfolding view components resolve find_child strcmp
docs_stands = refl
