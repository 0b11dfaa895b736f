-- ===== src/System/Safe/Commands.antt =====
-- Each command ends, in a state that is ready for the next.
use fox_os.Base.{
  ℕ, ◌+◌, ◌<◌, ◌≤◌, ◌≡◌, refl, ◌∙◌, inl, inr, true, false, List, [], ◌∷◌, ◌++◌, Option, none, some,
  Run, ◌>>=◌, Ends, bind-Ends, arith, length, All, Bool-cases, lt→ltb, need-ret, if◌then◌else◌,
  codes,
}
use fox_os.Fs.{max_filename, Fs, file_type_dir, file_type_file}
use fox_os.Fs.Lookup.{slash}
use fox_os.Fs.Lookup.Resolve.{components, IsShort}
use fox_os.Fs.Entries.{or_root, fs_mkdir}
use fox_os.Fs.Entries.Parent.{last_slash-append, take-append, drop-append}
use fox_os.Fs.Removal.{fs_delete_file}
use fox_os.Fs.Sound.{IsSound, create_file-IsSound, delete_file_at-IsSound}
use fox_os.Screen.Printf.{arg_text}
use fox_os.System.{System, print}
use fox_os.System.Printing.{Drawn, no_percent, print_plain, print_text}
use fox_os.System.Files.{
  is_empty, report, mkdir_at, mkdir, touch_in, touch_path, touch_at, touch, rm_at, rm,
}
use fox_os.System.Safe.{IsPath, IsReady}
use fox_os.System.Safe.Paths.{
  build_path-IsPath, parse_path-Ends, IsSplit-path, create_at_path-IsSound, or_root-names,
}
use fox_os.Terminal.Args.{take_word, skip_spaces, parse_args, build_path}

pub Drawn-IsReady : {k k' : System} {n : ℕ} → IsReady k n → Drawn k k' → IsReady k' n
Drawn-IsReady {k} {k'} {n} v (s, e, w) =
    rw e (record { on_screen = w; sound = v.sound; directory = v.directory })

-- A message.
pub say :
    (k : System) (n : ℕ) (format : List ℕ)
    → IsReady k n
    → no_percent format ≡ true
    → Ends (print k format []) (λ k'. IsReady k' n)
say k n format v h =
    let (k', e, d) = print_plain k format v.on_screen h in (k', e, Drawn-IsReady v d)

pub say_text :
    (k : System) (n : ℕ) (before behind text : List ℕ)
    → IsReady k n
    → no_percent before ≡ true
    → no_percent behind ≡ true
    → Ends (print k (before ++ (b'%' ∷ b's' ∷ behind)) (arg_text text ∷ [])) (λ k'. IsReady k' n)
say_text k n before behind text v h g =
    let (k', e, d) = print_text k before behind text v.on_screen h g in (k', e, Drawn-IsReady v d)

pub wider : {k : System} {n m : ℕ} → n ≤ m → IsReady k n → IsReady k m
wider l v = record {
  on_screen = v.on_screen;
  sound = v.sound;
  directory = record {
    rest = v.directory.rest;
    absolute = v.directory.absolute;
    short = omega (arith, v.directory.short);
    names = v.directory.names;
  };
}

pub with_fs :
    {k : System} {n : ℕ} → IsReady k n → (fs : Fs) → IsSound fs → IsReady (record k { fs = fs }) n
with_fs v fs s = record { on_screen = v.on_screen; sound = s; directory = v.directory }

length-take_word : (cmd : List ℕ) → length (take_word cmd).0 + length (take_word cmd).1 ≤ length cmd
length-take_word [] = omega arith
length-take_word (c ∷ cmd) = ground (arith, length-take_word cmd)

length-skip_spaces : (cmd : List ℕ) → length (skip_spaces cmd) ≤ length cmd
length-skip_spaces [] = omega arith
length-skip_spaces (c ∷ cmd) = ground (arith, length-skip_spaces cmd)

-- The arguments of a line that the input buffer holds fit into their arrays.
pub parse_args-Ends :
    (cmd : List ℕ) → length cmd < 256 → Ends (parse_args cmd) (λ r. length r.0 < 256)
unfolding parse_args
parse_args-Ends cmd l =
    let rest = (take_word cmd).1 in
    let first = take_word (skip_spaces rest) in
    let second = skip_spaces first.1 in
    let a : length first.0 < 256 =
      omega (
        arith,
        length-take_word cmd,
        length-skip_spaces rest,
        length-take_word (skip_spaces rest),
      ) in
    let b : length second < 256 = omega (
      arith,
      length-take_word cmd,
      length-skip_spaces rest,
      length-take_word (skip_spaces rest),
      length-skip_spaces first.1,
    ) in
    (
      (first.0, second),
      need-ret (lt→ltb (length first.0) max_filename a)
          ∙ need-ret (lt→ltb (length second) max_filename b),
      a,
    )

pub is_empty-false : (arg : List ℕ) → is_empty arg ≡ false → 0 < length arg
is_empty-false [] e = absurd (cc e)
is_empty-false (c ∷ arg) e = omega arith

module _ (n : ℕ) (room : n + 257 ≤ 512) where
  report-IsReady :
      (k : System) (message : List ℕ) (r : Option ℕ × Fs)
      → IsReady k n
      → no_percent message ≡ true
      → IsSound r.1
      → Ends (report k message r) (λ k'. IsReady k' (n + 256))
  unfolding report
  report-IsReady k message (none, fs) v h s =
      let (k', e, w) = say (record k { fs = fs }) n message (with_fs v fs s) h in
      (k', e, wider (omega arith) w)
  report-IsReady k message (some i, fs) v h s =
      (record k { fs = fs }, refl, wider (omega arith) (with_fs v fs s))

  -- A command that needs an argument.
  with_argument :
      (k : System) (cmd message : List ℕ) (act : List ℕ → Run System)
      → IsReady k n
      → length cmd < 256
      → no_percent message ≡ true
      → ((arg : List ℕ)
          → 0 < length arg
          → length arg < 256
          → Ends (act arg) (λ k'. IsReady k' (n + 256)))
      → Ends
          (parse_args cmd >>= λ r. if is_empty r.0 then print k message [] else act r.0)
          (λ k'. IsReady k' (n + 256))
  with_argument k cmd message act v l h f = bind-Ends (parse_args-Ends cmd l) (λ r q.
      elim (Bool-cases (is_empty r.0)) [
        | inl e ↦ let (k', e', w) = say k n message v h in rw e (k', e', wider (omega arith) w)
        | inr e ↦ rw e (f r.0 (is_empty-false r.0 e) q)
      ])

  IsPath-of :
      (k : System) (arg : List ℕ)
      → IsReady k n
      → 0 < length arg
      → length arg < 256
      → Ends (build_path k.current_dir arg) (λ full. IsPath full (n + 256))
  IsPath-of k arg v h l = build_path-IsPath k.current_dir arg n v.directory h l room

  mkdir_at-IsReady :
      (k : System) (arg : List ℕ)
      → IsReady k n
      → 0 < length arg
      → length arg < 256
      → Ends (mkdir_at k arg) (λ k'. IsReady k' (n + 256))
  unfolding mkdir_at fs_mkdir
  mkdir_at-IsReady k arg v h l = bind-Ends (IsPath-of k arg v h l) (λ full p.
      bind-Ends (create_at_path-IsSound k.fs file_type_dir full (n + 256) v.sound p (omega arith))
        (λ r s. report-IsReady k (codes "Error: Cannot create directory\n") r v refl s))

  pub mkdir-IsReady :
      (k : System) (cmd : List ℕ)
      → IsReady k n
      → length cmd < 256
      → Ends (mkdir k cmd) (λ k'. IsReady k' (n + 256))
  unfolding mkdir
  mkdir-IsReady k cmd v l =
      with_argument k cmd (codes "Error: Directory name required\n") (mkdir_at k) v l refl
        (λ arg h q. mkdir_at-IsReady k arg v h q)

  rm_at-IsReady :
      (k : System) (arg : List ℕ)
      → IsReady k n
      → 0 < length arg
      → length arg < 256
      → Ends (rm_at k arg) (λ k'. IsReady k' (n + 256))
  unfolding rm_at fs_delete_file
  rm_at-IsReady k arg v h l = bind-Ends (IsPath-of k arg v h l) (λ full p.
      bind-Ends
        (bind-Ends {Q = λ r. IsSound r.1} (parse_path-Ends k.fs full v.sound.not_empty p.names)
          (λ r b. delete_file_at-IsSound k.fs r v.sound b))
        (λ r s. report-IsReady k (codes "Error: Cannot remove file/directory\n") r v refl s))

  pub rm-IsReady :
      (k : System) (cmd : List ℕ)
      → IsReady k n
      → length cmd < 256
      → Ends (rm k cmd) (λ k'. IsReady k' (n + 256))
  unfolding rm
  rm-IsReady k cmd v l =
      with_argument k cmd (codes "Error: File/directory name required\n") (rm_at k) v l refl
        (λ arg h q. rm_at-IsReady k arg v h q)

  touch_in-IsReady :
      (k : System) (r : Option ℕ) (name : List ℕ)
      → IsReady k n
      → length name < 256
      → Ends (touch_in k r name) (λ k'. IsReady k' (n + 256))
  unfolding touch_in
  touch_in-IsReady k none name v l =
      let (k', e, w) = say k n (codes "Error: Invalid path\n") v refl in
      (k', e, wider (omega arith) w)
  touch_in-IsReady k (some i) name v l =
      bind-Ends (create_file-IsSound k.fs name file_type_file i v.sound l)
        (λ r s. report-IsReady k (codes "Error: Cannot create file\n") r v refl s)

  touch_path-IsReady :
      (k : System) (dir name : List ℕ)
      → IsReady k n
      → length name < 256
      → All IsShort (components dir)
      → Ends (touch_path k (dir ++ (slash ∷ name)) (length dir)) (λ k'. IsReady k' (n + 256))
  unfolding touch_path
  touch_path-IsReady k dir name v l a =
      rw (take-append, drop-append)
        (bind-Ends (parse_path-Ends k.fs (or_root dir) v.sound.not_empty (or_root-names dir a))
          (λ r b. touch_in-IsReady k r name v l))

  touch_at-IsReady :
      (k : System) (arg : List ℕ)
      → IsReady k n
      → 0 < length arg
      → length arg < 256
      → Ends (touch_at k arg) (λ k'. IsReady k' (n + 256))
  unfolding touch_at
  touch_at-IsReady k arg v h l = bind-Ends (IsPath-of k arg v h l) (λ full p.
      let (dir, name, s) = IsSplit-path full (n + 256) p (omega arith) in
      rw (s.whole, last_slash-append dir name s.last)
        (touch_path-IsReady k dir name v s.short s.names))

  pub touch-IsReady :
      (k : System) (cmd : List ℕ)
      → IsReady k n
      → length cmd < 256
      → Ends (touch k cmd) (λ k'. IsReady k' (n + 256))
  unfolding touch
  touch-IsReady k cmd v l =
      with_argument k cmd (codes "Error: File name required\n") (touch_at k) v l refl
        (λ arg h q. touch_at-IsReady k arg v h q)
