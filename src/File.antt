-- ===== src/File.antt =====
-- What the code uses of package os: the bytes of an open file, written and read at a position, and
-- a whole file written anew. Every write may fail.
pub mod Laws
use stream_flow.Prelude.{
  ℕ, zero, suc, ◌+◌, ◌-◌, ◌≡◌, Bool, true, false, Option, none, some, ◌++◌, Bytes, length, take,
  drop, replicate, ltb, leb, ◌||◌, ◌==◌, if◌then◌else◌,
}
use stream_flow.Int64.{is_neg}

-- How a write ends. `failed n` is an error after `n` bytes.
pub data Outcome : Type 0 where
  done : Outcome
  failed : ℕ → Outcome

-- The file with `bs` at position `pos`; a gap behind the end is filled with zeros.
unfoldable pub overwrite : ℕ → Bytes → Bytes → Bytes
overwrite pos bs file =
    take pos (file ++ replicate (pos - length file) 0) ++ (bs ++ drop (pos + length bs) file)

-- `file.WriteAt(bs, pos)`: the file after it, and whether it succeeded.
unfoldable pub write_at : Outcome → ℕ → Bytes → Bytes → Bytes × Bool
write_at done pos bs file = if is_neg pos then (file, false) else (overwrite pos bs file, true)
write_at (failed n) pos bs file =
    if is_neg pos then (file, false) else (overwrite pos (take n bs) file, false)

-- `file.ReadAt(buf, pos)` with `len(buf) == n`: an error if it cannot fill `buf`, and none if there
-- is nothing to fill.
unfoldable pub read_at : ℕ → ℕ → Bytes → Option Bytes
read_at n pos file =
    if is_neg pos
    then none
    else if leb (pos + n) (length file)
    then some (take n (drop pos file))
    else none

-- How `os.WriteFile` ends: it may fail before it truncates the file, or after some bytes.
pub data Rewrite : Type 0 where
  written : Rewrite
  unopened : Rewrite
  cut : ℕ → Rewrite

-- The content of the file after `os.WriteFile`, and whether it succeeded.
unfoldable pub write_file : Rewrite → Bytes → Bytes → Bytes × Bool
write_file written bs file = (bs, true)
write_file unopened bs file = (file, false)
write_file (cut n) bs file = (take n bs, false)
