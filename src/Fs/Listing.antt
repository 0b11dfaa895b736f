-- ===== src/Fs/Listing.antt =====
-- `fs_list_dir` of src/fs.c.
pub mod Complete
use fox_os.Base.{
  ℕ, zero, suc, ◌+◌, ◌-◌, ◌%◌, ◌^◌, Bool, true, false, ◌&&◌, List, [], ◌∷◌, ◌++◌, Option, none,
  some, Run, ret, need, ◌>>=◌, ltb, leb, ◌==◌, if◌then◌else◌, length, not, ◌||◌,
}
use fox_os.Fs.{max_filename, max_files, File, Fs, is_dir, dir_at, live}
use fox_os.Fs.Lookup.{fs_parse_path}

-- The text of an entry: its name, a slash behind a directory, and the end of the line.
unfoldable pub entry_line : File → List ℕ
entry_line f = f.name ++ (if is_dir f.type then b'/' ∷ b'\n' ∷ [] else b'\n' ∷ [])

-- `buffer_size - (current_pos - buffer)` in `uint32_t`.
abbrev pub remaining : ℕ → ℕ → ℕ
remaining buffer_size used = (buffer_size + 2 ^ 32 - used) % 2 ^ 32

-- The loop, over the entries from index `i` on: `text` is what stands in the buffer. A `break` ends
-- it with what has been written.
unfoldable pub list_from : List File → ℕ → ℕ → ℕ → List ℕ → ℕ → Run (ℕ × List ℕ)
list_from [] i dir_index buffer_size text count = ret (count, text)
list_from (f ∷ files) i dir_index buffer_size text count =
    let skipped = list_from files (suc i) dir_index buffer_size text count in
    let out = text ++ entry_line f in
    let listed = list_from files (suc i) dir_index buffer_size out (count + 1) in
    if i == 0
    then skipped
    else if f.parent_index == dir_index
    then (if ltb (remaining buffer_size (length text)) (max_filename + 3)
        then ret (count, text)
        else need (leb (length out) buffer_size) listed)
    else skipped

-- The rest of `fs_list_dir` once the path has been resolved: the result, and the text in the
-- buffer, whose NUL goes behind it.
unfoldable pub list_at : Fs → Option ℕ → ℕ → Run (Option ℕ × List ℕ)
list_at fs none buffer_size = ret (none, [])
list_at fs (some dir_index) buffer_size =
    if leb max_files dir_index || not (dir_at fs.files dir_index)
    then ret (none, [])
    else list_from (live fs) 0 dir_index buffer_size [] 0 >>= λ (count, text).
        need (ltb (length text) buffer_size) (ret (some count, text))

unfoldable pub fs_list_dir : Fs → List ℕ → ℕ → Run (Option ℕ × List ℕ)
fs_list_dir fs path buffer_size = fs_parse_path fs path >>= λ r. list_at fs r buffer_size
