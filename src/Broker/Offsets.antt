-- ===== src/Broker/Offsets.antt =====
-- broker/broker.go: the offsets that consumer groups commit, each in a file of its own.
use stream_flow.Prelude.{
  refl, true, false, ℕ, ◌≡◌, Bool, false, Option, none, some, ◌∷◌, ◌++◌, Bytes, take, ascii,
  bytes_key, same_bytes, arith, if◌then◌else◌,
}
use stream_flow.Prelude.Action.{Result, ok, err}
use stream_flow.Decimal.{print_int64, scan_int64}
use stream_flow.Decimal.Laws.{scan_int64-print_int64}
use stream_flow.Dict.{lookup, insert}
use stream_flow.Dict.Laws.{lookup-insert}
use stream_flow.File.{Rewrite, written, unopened, cut}
use stream_flow.Int64.{IsInt64}
use stream_flow.Broker.State.{
  Broker, Error, create_failed, write_failed, bad_offset_file, no_offset_file,
}

abbrev pub offset_path : Bytes → Bytes → Bytes
offset_path topic group = ascii "groups/" ++ (group ++ (b'/' ∷ (topic ++ ascii ".offset")))

write_offset : Rewrite → Bytes → Bytes → Broker → Broker × Result Error (Unit {0})
write_offset written path data_bytes b =
    (record b { group_files = insert path data_bytes b.group_files }, ok tt)
write_offset unopened path data_bytes b = (b, err write_failed)
write_offset (cut n) path data_bytes b =
    (record b { group_files = insert path (take n data_bytes) b.group_files }, err write_failed)

-- `dir_fails` is an error of making the group's directory.
unfoldable pub commit_offset :
    Bool → Rewrite → Bytes → Bytes → ℕ → Broker → Broker × Result Error (Unit {0})
unfolding write_offset
commit_offset dir_fails w topic group offset b =
    if dir_fails
    then (b, err create_failed)
    else write_offset w (offset_path topic group) (print_int64 offset) b

write_offset-topics :
    (w : Rewrite) (path data_bytes : Bytes) (b : Broker)
    → (write_offset w path data_bytes b).0.topics ≡ b.topics
unfolding write_offset
write_offset-topics written path data_bytes b = refl
write_offset-topics unopened path data_bytes b = refl
write_offset-topics (cut n) path data_bytes b = refl

pub commit_offset-topics :
    (dir_fails : Bool) (w : Rewrite) (topic group : Bytes) (offset : ℕ) (b : Broker)
    → (commit_offset dir_fails w topic group offset b).0.topics ≡ b.topics
unfolding commit_offset
commit_offset-topics true w topic group offset b = refl
commit_offset-topics false w topic group offset b =
    write_offset-topics w (offset_path topic group) (print_int64 offset) b

parse_offset : Option ℕ → Result Error ℕ
parse_offset none = err bad_offset_file
parse_offset (some off) = ok off

read_offset : Option Bytes → Result Error ℕ
unfolding parse_offset
read_offset none = err no_offset_file
read_offset (some bs) = parse_offset (scan_int64 bs)

unfoldable pub load_offset : Bytes → Bytes → Broker → Result Error ℕ
unfolding read_offset
load_offset topic group b = read_offset (lookup (offset_path topic group) b.group_files)

read_printed : (v : ℕ) → IsInt64 v → read_offset (some (print_int64 v)) ≡ ok v
unfolding read_offset parse_offset
read_printed v h = rw (scan_int64-print_int64 v h)

-- After a commit of an int64 that was written, loading the offset of any topic and group returns
-- the committed one if the path of its file is the same, and what it returned before otherwise.
pub load_offset-commit_offset :
    (topic group topic' group' : Bytes) (offset : ℕ) (b : Broker)
    → IsInt64 offset
    → load_offset topic' group' (commit_offset false written topic group offset b).0 ≡ (
        if same_bytes (offset_path topic group) (offset_path topic' group')
        then ok offset
        else load_offset topic' group' b)
unfolding commit_offset write_offset load_offset
load_offset-commit_offset topic group topic' group' offset b h = ground (
  arith,
  lookup-insert (offset_path topic group) (offset_path topic' group') (print_int64 offset)
      b.group_files,
  read_printed offset h,
)
