-- ===== src/Broker/RawFetch.antt =====
-- broker/sendfile.go, sendfile_linux.go and sendfile_nonlinux.go: sending a part of a file to a
-- writer. Offsets and counts are those of a stored record, so that sums do not wrap around. Reading
-- an `os.File` reports the end of the file just when nothing is left, and otherwise at least a byte.
pub mod Sent
pub mod Delivery
use Prim.Native.Nat.{min}
use stream_flow.Prelude.{
  ℕ, suc, ◌+◌, ◌-◌, Bool, true, false, Option, none, some, List, [], ◌∷◌, ◌++◌, Bytes, length, take,
  drop, ltb, ◌==◌, not, ◌*◌, ◌&&◌, if◌then◌else◌,
}

pub data Platform : Type 0 where
  linux other_system : Platform

-- Only a file of package os can take the system call.
pub data Writer : Type 0 where
  os_file other_writer : Writer

-- How one round of the loop goes: how many bytes, at least one, are read at most, whether the read
-- then reports an error, how many the writer takes at most, and whether it reports an error.
pub record Round : Type 0 where
  pub more_bytes : ℕ
  pub read_fails : Bool
  pub taken : ℕ
  pub write_fails : Bool

pub data SendError : Type 0 where
  seek_failed read_error write_error short_write invalid call_failed : SendError

-- What was written, its length as it was counted, and the error.
abbrev pub Sending : Type 0
Sending = Bytes × ℕ × Option SendError

abbrev pub buffer_size : ℕ
buffer_size = 32 * 1024

abbrev pub bytes_read : Round → ℕ → ℕ → ℕ
bytes_read r left remain =
    min (min (if r.read_fails then r.more_bytes else suc r.more_bytes) (min remain buffer_size))
      left

-- The loop of `sendFileFallback`: `rest` is what is left of the file, `out` what was written; `none`
-- when it wants more rounds.
unfoldable pub fallback_loop : List Round → Bytes → ℕ → Bytes → ℕ → Option Sending
fallback_loop [] rest remain out copied = if remain == 0 then some (out, copied, none) else none
fallback_loop (r ∷ rs) rest remain out copied =
    let n = bytes_read r (length rest) remain in
    let wn = min r.taken n in
    let out' = out ++ take wn rest in
    let next = fallback_loop rs (drop n rest) (remain - n) out' (copied + wn) in
    if remain == 0
    then some (out, copied, none)
    else if r.write_fails && ltb 0 n
    then some (out', copied + wn, some write_error)
    else if not (wn == n)
    then some (out', copied + wn, some short_write)
    else if r.read_fails
    then some (out', copied + wn, some read_error)
    else if n == 0
    then some (out', copied + wn, none)
    else next

unfoldable pub send_file_fallback : Bool → List Round → Bytes → ℕ → ℕ → Option Sending
unfolding fallback_loop
send_file_fallback seek_fails rounds file off count =
    if seek_fails
    then some ([], 0, some seek_failed)
    else fallback_loop rounds (drop off file) count [] 0

-- One call of sendfile: how many bytes it sends at most, whether it reports an error, and whether
-- this is one after which the code tries again.
pub record SendCall : Type 0 where
  pub at_most : ℕ
  pub fails : Bool
  pub again : Bool

abbrev pub bytes_sent : SendCall → ℕ → ℕ → ℕ
bytes_sent c left remain = min (min c.at_most remain) left

unfoldable pub linux_loop : List SendCall → Bytes → ℕ → Bytes → ℕ → Option Sending
linux_loop [] rest remain out total = if remain == 0 then some (out, total, none) else none
linux_loop (c ∷ cs) rest remain out total =
    let n = bytes_sent c (length rest) remain in
    let out' = out ++ take n rest in
    let next = linux_loop cs (drop n rest) (remain - n) out' (total + n) in
    if remain == 0
    then some (out, total, none)
    else if c.fails && not c.again
    then some (out', total + n, some call_failed)
    else if not c.fails && n == 0
    then some (out', total + n, none)
    else next

-- `SendFile`
unfoldable pub send_file :
    Platform → Writer → Bool → List Round → List SendCall → Bytes → ℕ → ℕ → Option Sending
unfolding send_file_fallback linux_loop
send_file other_system writer seek_fails rounds calls file off count =
    send_file_fallback seek_fails rounds file off count
send_file linux other_writer seek_fails rounds calls file off count = some ([], 0, some invalid)
send_file linux os_file seek_fails rounds calls file off count =
    linux_loop calls (drop off file) count [] 0
