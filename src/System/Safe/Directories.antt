-- ===== src/System/Safe/Directories.antt =====
-- `ls` and `cd`.
use fox_os.Base.{
  ℕ, ◌+◌, ◌*◌, ◌<◌, ◌≤◌, refl, inl, inr, List, [], Option, none, some, Ends, bind-Ends, arith,
  length, Bool-cases, lt→ltb, need-ret, codes,
}
use fox_os.Fs.{max_filename}
use fox_os.Fs.Lookup.{fs_get_file}
use fox_os.Fs.Lookup.Resolve.{components}
use fox_os.Fs.Listing.{fs_list_dir}
use fox_os.Fs.Sound.{list_at-Ends}
use fox_os.System.{System}
use fox_os.System.Files.{
  is_empty, list_size, copy_dir, print_list, ls_path, ls_at, ls, is_directory, enter, cd_to, cd,
}
use fox_os.System.Safe.{IsPath, IsReady}
use fox_os.System.Safe.Paths.{build_path-IsPath, parse_path-Ends}
use fox_os.System.Safe.Commands.{say, say_text, wider, parse_args-Ends, is_empty-false}
use fox_os.Text.{strcmp, is_zero}

module _ (n : ℕ) (room : n + 257 ≤ 512) where
  longer : {path : List ℕ} → IsPath path n → IsPath path (n + 256)
  longer p = record {
    rest = p.rest;
    absolute = p.absolute;
    short = omega (arith, p.short);
    names = p.names;
  }

  copy_dir-IsPath : (k : System) → IsReady k n → Ends (copy_dir k) (λ full. IsPath full (n + 256))
  copy_dir-IsPath k v = (
    k.current_dir,
    need-ret (lt→ltb (length k.current_dir) (max_filename * 2) (omega (arith, v.directory.short))),
    longer v.directory,
  )

  ls_path-IsPath :
      (k : System) (arg : List ℕ)
      → IsReady k n
      → length arg < 256
      → Ends (ls_path k arg) (λ full. IsPath full (n + 256))
  ls_path-IsPath k arg v l = elim (Bool-cases (is_empty arg)) [
    | inl e ↦ rw e (copy_dir-IsPath k v)
    | inr e ↦ elim (Bool-cases (is_zero (strcmp arg (codes ".")))) [
      | inl d ↦ rw (e, d) (copy_dir-IsPath k v)
      | inr d ↦
          rw (e, d)
            (build_path-IsPath k.current_dir arg n v.directory (is_empty-false arg e) l room)
    ]
  ]

  print_list-IsReady :
      (k : System) (r : Option ℕ × List ℕ)
      → IsReady k n
      → Ends (print_list k r) (λ k'. IsReady k' n)
  unfolding print_list
  print_list-IsReady k (none, text) v = say k n (codes "Error: Cannot list directory\n") v refl
  print_list-IsReady k (some c, text) v = say_text k n [] [] text v refl refl

  pub ls-IsReady :
      (k : System) (cmd : List ℕ)
      → IsReady k n
      → length cmd < 256
      → Ends (ls k cmd) (λ k'. IsReady k' n)
  unfolding ls ls_at fs_list_dir
  ls-IsReady k cmd v l = bind-Ends (parse_args-Ends cmd l) (λ r q.
      bind-Ends (ls_path-IsPath k r.0 v q) (λ full p.
        bind-Ends {Q = λ k'. IsReady k' n}
          (bind-Ends {Q = λ r'. Unit {0}} (parse_path-Ends k.fs full v.sound.not_empty p.names)
            (λ d b. list_at-Ends k.fs d list_size v.sound (omega arith) (omega arith)))
          (λ r' u. print_list-IsReady k r' v)))

  enter-IsReady :
      (k : System) (full : List ℕ) (d : Option ℕ)
      → IsReady k n
      → IsPath full (n + 256)
      → Ends (enter k full d) (λ k'. IsReady k' (n + 256))
  unfolding enter
  enter-IsReady k full d v p = elim (Bool-cases (is_directory k.fs d)) [
    | inl e ↦ (
      record k { current_dir = full },
      rw e refl,
      record { on_screen = v.on_screen; sound = v.sound; directory = p },
    )
    | inr e ↦
        let (k', e', w) = say k n (codes "Error: Directory not found\n") v refl in
        (k', rw e e', wider (omega arith) w)
  ]

  cd_to-IsReady :
      (k : System) (arg : List ℕ)
      → IsReady k n
      → 0 < length arg
      → length arg < 256
      → Ends (cd_to k arg) (λ k'. IsReady k' (n + 256))
  unfolding cd_to fs_get_file
  cd_to-IsReady k arg v h l =
      bind-Ends (build_path-IsPath k.current_dir arg n v.directory h l room) (λ full p.
        bind-Ends (parse_path-Ends k.fs full v.sound.not_empty p.names)
          (λ d b. enter-IsReady k full d v p))

  pub cd-IsReady :
      (k : System) (cmd : List ℕ)
      → IsReady k n
      → length cmd < 256
      → Ends (cd k cmd) (λ k'. IsReady k' (n + 256))
  unfolding cd
  cd-IsReady k cmd v l = bind-Ends (parse_args-Ends cmd l) (λ r q.
      elim (Bool-cases (is_empty r.0)) [
        | inl e ↦ (
          record k { current_dir = codes "/" },
          rw e refl,
          record {
            on_screen = v.on_screen;
            sound = v.sound;
            directory = record {
              rest = [];
              absolute = refl;
              short = omega arith;
              names = unfold components in tt;
            };
          },
        )
        | inr e ↦ rw e (cd_to-IsReady k r.0 v (is_empty-false r.0 e) q)
      ])
