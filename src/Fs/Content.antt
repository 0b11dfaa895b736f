-- ===== src/Fs/Content.antt =====
-- `fs_write` and `fs_read` of src/fs.c.
pub mod RoundTrip
use fox_os.Base.{
  ℕ, Bool, ◌&&◌, not, List, ◌++◌, Option, none, some, Run, ret, need, ◌>>=◌, ltb, leb,
  if◌then◌else◌, length, get_elem?, modify, take, drop, fault,
}
use fox_os.Fs.{max_file_size, File, Fs, is_file}
use fox_os.Fs.Lookup.{fs_get_file}

-- `if (size > limit) size = limit;`
unfoldable pub capped : ℕ → ℕ → ℕ
capped size limit = if ltb limit size then limit else size

-- `for (i = 0; i < size; i++) dest[i] = src[i];` for objects of the lengths of the lists.
unfoldable pub copy_bytes : List ℕ → List ℕ → ℕ → Run (List ℕ)
copy_bytes dest src size =
    need (leb size (length dest) && leb size (length src)) (ret (take size src ++ drop size dest))

-- The entry that a path leads to, if it is a file: `!file || file->type != FILE_TYPE_FILE` fails.
unfoldable pub file_at : Fs → Option ℕ → Option File
file_at fs none = none
file_at fs (some i) = elim (get_elem? fs.files i) [
  | none ↦ none
  | some f ↦ if is_file f.type then some f else none
]

-- The rest of `fs_write` once the path has been resolved.
unfoldable pub write_at : Fs → Option ℕ → List ℕ → ℕ → Run (Option ℕ × Fs)
write_at fs none bytes size = ret (none, fs)
write_at fs (some i) bytes size = elim (file_at fs (some i)) [
  | none ↦ ret (none, fs)
  | some f ↦
      let n = capped size max_file_size in
      copy_bytes f.content bytes n >>= λ content. ret (
        some n,
        record fs { files = modify fs.files i (λ g. record g { content = content; size = n }) },
      )
]

unfoldable pub fs_write : Fs → List ℕ → List ℕ → ℕ → Run (Option ℕ × Fs)
fs_write fs path bytes size = fs_get_file fs path >>= λ r. write_at fs r bytes size

-- The rest of `fs_read`: the result, and the buffer afterwards.
unfoldable pub read_at : Fs → Option ℕ → List ℕ → ℕ → Run (Option ℕ × List ℕ)
read_at fs r buffer size = elim (file_at fs r) [
  | none ↦ ret (none, buffer)
  | some f ↦
      let n = capped size f.size in
      copy_bytes buffer f.content n >>= λ buffer'. ret (some n, buffer')
]

unfoldable pub fs_read : Fs → List ℕ → List ℕ → ℕ → Run (Option ℕ × List ℕ)
fs_read fs path buffer size = fs_get_file fs path >>= λ r. read_at fs r buffer size
