-- ===== src/System/Compose.antt =====
-- Commands one after the other.
use fox_os.Base.{
  ℕ, ◌+◌, ◌<◌, ◌≤◌, ◌≡◌, refl, sym, ◌∙◌, true, List, ◌∷◌, ◌++◌, some, ret, arith, length, codes,
}
use fox_os.Fs.{Fs, file_type_dir, dir_at}
use fox_os.Fs.Lookup.{slash, fs_parse_path, fs_get_file}
use fox_os.Fs.Entries.{fs_mkdir, create_at_path}
use fox_os.Fs.Entries.Reach.{create_reachable, create-dir_at}
use fox_os.System.{System}
use fox_os.System.Files.{mkdir, mkdir_at, cd, cd_to, enter, report}
use fox_os.System.Command.{goes_on, execute_file, execute}
use fox_os.System.Safe.{IsPath, IsReady}
use fox_os.System.Safe.Paths.{build_path-IsPath, IsSplit-path}
use fox_os.Terminal.Args.{build_path}
use fox_os.Terminal.Args.Words.{IsWord, parse_args_one}
use fox_os.Text.{strcmp, strncmp}

mkdir_runs :
    (k : System) (arg full : List ℕ) (i : ℕ) (fs' : Fs)
    → build_path k.current_dir arg ≡ ret full
    → fs_mkdir k.fs full ≡ ret (some i, fs')
    → mkdir_at k arg ≡ ret (record k { fs = fs' })
unfolding mkdir_at report
mkdir_runs k arg full i fs' b m = rw (b, m) refl

cd_runs :
    (k : System) (arg full : List ℕ) (i : ℕ)
    → build_path k.current_dir arg ≡ ret full
    → fs_parse_path k.fs full ≡ ret (some i)
    → dir_at k.fs.files i ≡ true
    → cd_to k arg ≡ ret (record k { current_dir = full })
unfolding cd_to fs_get_file enter
cd_runs k arg full i b p d = rw (b, p, d) refl

-- What `fs_mkdir` has made is a directory, and its path leads there.
mkdir_made :
    (fs fs' : Fs) (full : List ℕ) (n i : ℕ)
    → length fs.files ≡ 256
    → IsPath full n
    → n < 512
    → fs_mkdir fs full ≡ ret (some i, fs')
    → (fs_parse_path fs' full ≡ ret (some i)) × (dir_at fs'.files i ≡ true)
unfolding fs_mkdir
mkdir_made fs fs' full n i cells p l h =
    let (dir, name, s) = IsSplit-path full n p l in
    let h' : create_at_path file_type_dir fs (dir ++ (slash ∷ name)) ≡ ret (some i, fs') =
      rw s.whole at h in
    (
      rw s.whole
          (create_reachable file_type_dir fs dir name cells s.last s.fits s.short s.names h'),
      create-dir_at file_type_dir fs dir name cells s.last s.fits s.short s.names h',
    )

execute-mkdir :
    (k k' : System) (c : ℕ) (arg : List ℕ)
    → IsWord (c ∷ arg)
    → length (c ∷ arg) < 256
    → mkdir_at k (c ∷ arg) ≡ ret k'
    → execute k (codes "mkdir " ++ (c ∷ arg)) ≡ ret (goes_on k')
unfolding execute execute_file mkdir strcmp strncmp
execute-mkdir k k' c arg w l h =
    rw
      (
        parse_args_one (codes "mkdir") arg c
            (ground arith, (ground arith, (ground arith, (ground arith, (ground arith, tt))))) w l,
        h,
      )
      refl

execute-cd :
    (k k' : System) (c : ℕ) (arg : List ℕ)
    → IsWord (c ∷ arg)
    → length (c ∷ arg) < 256
    → cd_to k (c ∷ arg) ≡ ret k'
    → execute k (codes "cd " ++ (c ∷ arg)) ≡ ret (goes_on k')
unfolding execute execute_file cd strcmp strncmp
execute-cd k k' c arg w l h =
    rw (parse_args_one (codes "cd") arg c (ground arith, (ground arith, tt)) w l, h) refl

-- After `mkdir` of a word has made a directory, `cd` of the same word goes there: the current
-- directory is the path that `build_path` gives, in the table that `mkdir` has left, and nothing is
-- printed. The current directory has at most 255 bytes before.
pub mkdir_then_cd :
    (k : System) (n c : ℕ) (arg full : List ℕ) (i : ℕ) (fs' : Fs)
    → n ≤ 255
    → IsReady k n
    → IsWord (c ∷ arg)
    → length (c ∷ arg) < 256
    → build_path k.current_dir (c ∷ arg) ≡ ret full
    → fs_mkdir k.fs full ≡ ret (some i, fs')
    → (k' : System) × (execute k (codes "mkdir " ++ (c ∷ arg)) ≡ ret (goes_on k'))
      × (execute k' (codes "cd " ++ (c ∷ arg))
          ≡ ret (goes_on (record k { fs = fs'; current_dir = full })))
mkdir_then_cd k n c arg full i fs' m v w l b h =
    let k' = record k { fs = fs' } in
    let (full', e, p) =
      build_path-IsPath k.current_dir (c ∷ arg) n v.directory (omega arith) l (omega arith) in
    let same : full' ≡ full = cc (sym e ∙ b) in
    let (found, made) =
      mkdir_made k.fs fs' full (n + 256) i v.sound.cells (rw same at p) (omega arith) h in
    (
      k',
      execute-mkdir k k' c arg w l (mkdir_runs k (c ∷ arg) full i fs' b h),
      execute-cd k' (record k' { current_dir = full }) c arg w l
          (cd_runs k' (c ∷ arg) full i b found made),
    )
