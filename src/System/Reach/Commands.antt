-- ===== src/System/Reach/Commands.antt =====
-- The commands on the file system.
use fox_os.Base.{
  ℕ, ◌<◌, refl, List, [], ◌∷◌, ◌++◌, Option, none, some, Run, ◌>>=◌, Leaves, Ends-Leaves,
  bind-Leaves, then-Leaves, ret-Leaves, if-Leaves, arith, length, codes, if◌then◌else◌,
}
use fox_os.Fs.{Fs, file_type_file, file_type_dir}
use fox_os.Fs.Entries.{fs_mkdir, or_root}
use fox_os.Fs.Entries.Parent.{last_slash-append, take-append, drop-append}
use fox_os.Fs.Lookup.{slash, fs_get_file, fs_parse_path}
use fox_os.Fs.Lookup.Resolve.{components}
use fox_os.Fs.Listing.{fs_list_dir}
use fox_os.Fs.Removal.{fs_delete_file}
use fox_os.Fs.Sound.{IsSound, create_file-IsSound, delete_file_at-IsSound}
use fox_os.System.{System, print}
use fox_os.System.Files.{
  is_empty, list_size, ls_at, ls, ls_path, print_list, is_directory, enter, cd_to, cd, report,
  mkdir_at, mkdir, touch_in, touch_path, touch_at, touch, rm_at, rm,
}
use fox_os.System.Reach.{IsSafe, print-IsSafe, build_path-Leaves}
use fox_os.System.Safe.{IsPath}
use fox_os.System.Safe.Commands.{parse_args-Ends}
use fox_os.System.Safe.Paths.{parse_path-Ends, create_at_path-IsSound, IsSplit-path}
use fox_os.Terminal.Args.{parse_args}

print_list-Leaves : (k : System) (r : Option ℕ × List ℕ) → IsSafe k → Leaves (print_list k r) IsSafe
unfolding print_list
print_list-Leaves k (none, text) v = print-IsSafe k _ _ v
print_list-Leaves k (some count, text) v = print-IsSafe k _ _ v

-- `ls` changes the screen only.
pub ls-Leaves : (k : System) (cmd : List ℕ) → IsSafe k → Leaves (ls k cmd) IsSafe
unfolding ls ls_at
ls-Leaves k cmd v = then-Leaves (parse_args cmd) (λ r.
    then-Leaves (ls_path k r.0)
      (λ full. then-Leaves (fs_list_dir k.fs full list_size) (λ r'. print_list-Leaves k r' v)))

enter-Leaves :
    (k : System) (full : List ℕ) (d : Option ℕ)
    → IsSafe k
    → IsPath full 511
    → Leaves (enter k full d) IsSafe
unfolding enter
enter-Leaves k full d v p =
    if-Leaves (is_directory k.fs d) (ret-Leaves (v.0, p)) (print-IsSafe k _ _ v)

root-IsPath : IsPath (codes "/") 511
unfolding components
root-IsPath = record { rest = []; absolute = refl; short = omega arith; names = tt }

pub cd-Leaves : (k : System) (cmd : List ℕ) → length cmd < 256 → IsSafe k → Leaves (cd k cmd) IsSafe
unfolding cd cd_to
cd-Leaves k cmd l v = bind-Leaves (Ends-Leaves (parse_args-Ends cmd l)) (λ r q.
    if-Leaves (is_empty r.0) (ret-Leaves (v.0, root-IsPath)) (
      bind-Leaves (build_path-Leaves k.current_dir r.0 v.1 q)
        (λ full p. then-Leaves (fs_get_file k.fs full) (λ d. enter-Leaves k full d v p))))

report-Leaves :
    (k : System) (message : List ℕ) (r : Option ℕ × Fs)
    → IsSafe k
    → IsSound r.1
    → Leaves (report k message r) IsSafe
unfolding report
report-Leaves k message (none, fs) v s = print-IsSafe (record k { fs = fs }) _ _ (s, v.1)
report-Leaves k message (some i, fs) v s = ret-Leaves (s, v.1)

-- A command that works on the path of its argument.
with_path :
    (k : System) (cmd message : List ℕ) (act : List ℕ → Run System)
    → length cmd < 256
    → IsSafe k
    → ((arg : List ℕ) → length arg < 256 → Leaves (act arg) IsSafe)
    → Leaves (parse_args cmd >>= λ r. if is_empty r.0 then print k message [] else act r.0) IsSafe
with_path k cmd message act l v f =
    bind-Leaves (Ends-Leaves (parse_args-Ends cmd l))
      (λ r q. if-Leaves (is_empty r.0) (print-IsSafe k message [] v) (f r.0 q))

pub mkdir-Leaves :
    (k : System) (cmd : List ℕ) → length cmd < 256 → IsSafe k → Leaves (mkdir k cmd) IsSafe
unfolding mkdir mkdir_at fs_mkdir
mkdir-Leaves k cmd l v = with_path k cmd _ (mkdir_at k) l v (λ arg q.
    bind-Leaves (build_path-Leaves k.current_dir arg v.1 q) (λ full p.
      bind-Leaves
        (Ends-Leaves (create_at_path-IsSound k.fs file_type_dir full 511 v.0 p (omega arith)))
        (λ r s. report-Leaves k _ r v s)))

pub rm-Leaves : (k : System) (cmd : List ℕ) → length cmd < 256 → IsSafe k → Leaves (rm k cmd) IsSafe
unfolding rm rm_at fs_delete_file
rm-Leaves k cmd l v = with_path k cmd _ (rm_at k) l v (λ arg q.
    bind-Leaves (build_path-Leaves k.current_dir arg v.1 q) (λ full p.
      bind-Leaves {P = λ r. IsSound r.1}
        (bind-Leaves (Ends-Leaves (parse_path-Ends k.fs full v.0.not_empty p.names))
          (λ r b. Ends-Leaves (delete_file_at-IsSound k.fs r v.0 b)))
        (λ r s. report-Leaves k _ r v s)))

touch_in-Leaves :
    (k : System) (r : Option ℕ) (name : List ℕ)
    → IsSafe k
    → length name < 256
    → Leaves (touch_in k r name) IsSafe
unfolding touch_in
touch_in-Leaves k none name v l = print-IsSafe k _ _ v
touch_in-Leaves k (some i) name v l =
    bind-Leaves (Ends-Leaves (create_file-IsSound k.fs name file_type_file i v.0 l))
      (λ r s. report-Leaves k _ r v s)

touch_path-Leaves :
    (k : System) (dir name : List ℕ)
    → IsSafe k
    → length name < 256
    → Leaves (touch_path k (dir ++ (slash ∷ name)) (length dir)) IsSafe
unfolding touch_path
touch_path-Leaves k dir name v l =
    rw (take-append, drop-append)
      (then-Leaves (fs_parse_path k.fs (or_root dir)) (λ r. touch_in-Leaves k r name v l))

pub touch-Leaves :
    (k : System) (cmd : List ℕ) → length cmd < 256 → IsSafe k → Leaves (touch k cmd) IsSafe
unfolding touch touch_at
touch-Leaves k cmd l v = with_path k cmd _ (touch_at k) l v (λ arg q.
    bind-Leaves (build_path-Leaves k.current_dir arg v.1 q) (λ full p.
      let (dir, name, s) = IsSplit-path full 511 p (omega arith) in
      rw (s.whole, last_slash-append dir name s.last) (touch_path-Leaves k dir name v s.short)))
