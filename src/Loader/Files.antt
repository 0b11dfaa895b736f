-- ===== src/Loader/Files.antt =====
-- The files that uefi_loader.c opens and closes.
use fox_os.Base.{
  ℕ, ◌==◌, ◌&&◌, ◌≡◌, refl, Bool, Bool-cases, inl, inr, List, [], ◌∷◌, Option, none, some, eq→==,
  ◌∙◌, true, false, if◌then◌else◌,
}
use fox_os.Loader.{
  Call, open_volume, open_file, close, read, set_position, get_position, get_info, Reply, Place,
  Prog, done, ask, look, say, Event, called, entered, Machine, returns, run,
}
use fox_os.Loader.KernelFile.{
  close_both, loaded, load, find_size, open_kernel, open_root, find_file_system, loader_main,
  efi_error,
}

-- Without the first `f`, if there is one.
unfoldable pub remove : ℕ → List ℕ → Option (List ℕ)
remove f [] = none
remove f (g ∷ files) =
    let rest = remove f files in
    if g == f then some files else elim rest [ none ↦ none | some r ↦ some (g ∷ r) ]

-- The same files, if `f` is one of them.
abbrev used : ℕ → List ℕ → Option (List ℕ)
used f files = elim (remove f files) [ none ↦ none | some r ↦ some files ]

abbrev opened : Reply → List ℕ → List ℕ
opened r files = if r.status == 0 then r.out ∷ files else files

-- The open files after a call: a call on a file that is not open is an error.
unfoldable pub step : Call → Reply → List ℕ → Option (List ℕ)
step (open_volume fs) r files = some (opened r files)
step (open_file dir path mode attributes) r files = elim (used dir files) [
  | none ↦ none
  | some same ↦ some (opened r files)
]
step (close f) r files = remove f files
step (read f size buffer) r files = used f files
step (set_position f position) r files = used f files
step (get_position f) r files = used f files
step (get_info f kind size buffer) r files = used f files
step _ r files = some files

-- The files that are open after what has happened, unless a file has been used or closed that was
-- not open.
unfoldable pub open_files : List Event → Option (List ℕ)
open_files [] = some []
open_files (called c r ∷ t) = elim (open_files t) [ none ↦ none | some files ↦ step c r files ]
open_files (entered a ∷ t) = open_files t

-- From any events that leave these files open, the loader returns, and every file has been closed.
abbrev Closes : Machine → List ℕ → Prog → Type 0
Closes m files p =
    (t : List Event)
    → open_files t ≡ some files
    → (v : ℕ) × (t' : List Event) × (run m p t ≡ returns v t') × (open_files t' ≡ some [])

remove_first : (f : ℕ) (files : List ℕ) → remove f (f ∷ files) ≡ some files
unfolding remove
remove_first f files = rw (eq→== f f refl) refl

used_first : (f : ℕ) (files : List ℕ) → used f (f ∷ files) ≡ some (f ∷ files)
used_first f files = rw (used, remove_first f files) refl

module _ (m : Machine) where
  ask-Closes :
      (c : Call) (next : Reply → Prog) (files : List ℕ)
      → ((r : Reply)
          → (files' : List ℕ) × (step c r files ≡ some files') × Closes m files' (next r))
      → Closes m files (ask c next)
  unfolding run open_files
  ask-Closes c next files h t e =
      let (files', s, w) = h (m.answer t c) in w (called c (m.answer t c) ∷ t) (rw (e, s) refl)

  say-Closes :
      (text : List ℕ) (p : Prog) (files : List ℕ) → Closes m files p → Closes m files (say text p)
  unfolding step
  say-Closes text p files h = ask-Closes _ _ files (λ r. (files, refl, h))

  done-Closes : (v : ℕ) → Closes m [] (done v)
  unfolding run
  done-Closes v t e = (v, t, refl, e)

  look-Closes :
      (p : Place) (next : ℕ → Prog) (files : List ℕ)
      → ((v : ℕ) → Closes m files (next v))
      → Closes m files (look p next)
  unfolding run
  look-Closes p next files h t e = h (m.value t p) t e

  if-Closes :
      (b : Bool) (p q : Prog) (files : List ℕ)
      → Closes m files p
      → Closes m files q
      → Closes m files (if b then p else q)
  if-Closes true p q files h g = h
  if-Closes false p q files h g = g

  -- A call that opens a file, if its status is 0.
  opens-Closes :
      (c : Call) (p : ℕ → Prog) (q : ℕ → Prog) (files : List ℕ)
      → ((r : Reply) → step c r files ≡ some (opened r files))
      → ((f : ℕ) → Closes m (f ∷ files) (p f))
      → ((s : ℕ) → Closes m files (q s))
      → Closes m files (ask c (λ r. if r.status == 0 then p r.out else q r.status))
  opens-Closes c p q files s h g = ask-Closes c _ files (λ r. elim (Bool-cases (r.status == 0)) [
    | inl e ↦ (r.out ∷ files, s r ∙ (rw e refl), rw e (h r.out))
    | inr e ↦ (files, s r ∙ (rw e refl), rw e (g r.status))
  ])

  both-Closes :
      (root file : ℕ) (p : Prog)
      → Closes m [] p
      → Closes m (file ∷ root ∷ []) (close_both root file p)
  unfolding step
  both-Closes root file p h = ask-Closes _ _ (file ∷ root ∷ []) (λ r. (
    root ∷ [],
    remove_first file (root ∷ []),
    ask-Closes _ _ (root ∷ []) (λ r'. ([], remove_first root [], h)),
  ))

  loaded-Closes :
      (root file size buffer : ℕ) (r : Reply)
      → Closes m (file ∷ root ∷ []) (loaded root file size buffer r)
  unfolding loaded step
  loaded-Closes root file size buffer r =
      if-Closes ((r.status == 0) && (r.out == size)) _ _ (file ∷ root ∷ [])
        (both-Closes root file _ (say-Closes _ _ [] (done-Closes 0)))
        (say-Closes _ _ (file ∷ root ∷ []) (
          ask-Closes _ _ (file ∷ root ∷ [])
            (λ r'. (file ∷ root ∷ [], refl, both-Closes root file _ (done-Closes r.status)))))

  load-Closes : (root file size : ℕ) → Closes m (file ∷ root ∷ []) (load root file size)
  unfolding load step
  load-Closes root file size = ask-Closes _ _ (file ∷ root ∷ []) (λ r. (
    file ∷ root ∷ [],
    refl,
    if-Closes (r.status == 0) _ _ (file ∷ root ∷ [])
        (ask-Closes _ _ (file ∷ root ∷ []) (λ r'.
          (file ∷ root ∷ [], used_first file (root ∷ []), loaded-Closes root file size r.out r')))
        (say-Closes _ _ (file ∷ root ∷ []) (both-Closes root file _ (done-Closes r.status))),
  ))

  find_size-Closes : (root file : ℕ) → Closes m (file ∷ root ∷ []) (find_size root file)
  unfolding find_size step
  find_size-Closes root file =
      let files = file ∷ root ∷ [] in
      ask-Closes _ _ files (λ r. (
        files,
        used_first file (root ∷ []),
        ask-Closes _ _ files (λ size. (
          files,
          used_first file (root ∷ []),
          ask-Closes _ _ files
              (λ r'. (files, used_first file (root ∷ []), load-Closes root file size.out)),
        )),
      ))

  open_kernel-Closes : (root : ℕ) → Closes m (root ∷ []) (open_kernel root)
  unfolding open_kernel step
  open_kernel-Closes root =
      opens-Closes _ _ _ (root ∷ []) (λ r. rw (step, used, remove_first root []) refl)
        (λ file. find_size-Closes root file)
        (λ s.
          say-Closes _ _ (root ∷ [])
            (ask-Closes _ _ (root ∷ []) (λ r. ([], remove_first root [], done-Closes s))))

  open_root-Closes : (file_system : ℕ) → Closes m [] (open_root file_system)
  unfolding open_root step
  open_root-Closes file_system =
      opens-Closes _ _ _ [] (λ r. refl) (λ root. open_kernel-Closes root)
        (λ s. say-Closes _ _ [] (done-Closes s))

  find_file_system-Closes : (device : ℕ) → Closes m [] (find_file_system device)
  unfolding find_file_system step
  find_file_system-Closes device = ask-Closes _ _ [] (λ r. (
    [],
    refl,
    if-Closes (r.status == 0) _ _ [] (open_root-Closes r.out)
        (say-Closes _ _ [] (done-Closes r.status)),
  ))

-- `UefiMain` of uefi_loader.c returns, whatever the firmware answers; on every path each file that it
-- has opened has been closed, once, and no call has used a file that was not open.
pub loader_closes :
    (m : Machine) (image : ℕ)
    → (v : ℕ) × (t : List Event) × (run m (loader_main image) [] ≡ returns v t)
      × (open_files t ≡ some [])
unfolding loader_main step open_files
loader_closes m image =
    say-Closes m _ _ []
      (ask-Closes m _ _ [] (λ r. (
        [],
        refl,
        if-Closes m (efi_error r.status) _ _ []
            (say-Closes m _ _ [] (look-Closes m _ _ [] (λ v. done-Closes m v)))
            (say-Closes m _ _ [] (look-Closes m _ _ [] (λ v. find_file_system-Closes m v))),
      )))
      [] refl
