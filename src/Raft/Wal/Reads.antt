-- ===== src/Raft/Wal/Reads.antt =====
-- What is read of files of frames, one of which may be unfinished.
use stream_flow.Prelude.{
  ℕ, zero, suc, ◌%◌, ◌^◌, ◌≡◌, ◌<◌, ◌≤◌, refl, sym, ap, ◌∙◌, true, false, some, List, [], ◌∷◌, ◌++◌,
  Bytes, length, take, drop, concat, All, ltb, bytes_key, arith, length-append, take-append_length,
  drop-append_length,
}
use stream_flow.Prelude.Action.{ok}
use mathlib.Core.List.{append_assoc, append-nil}
use stream_flow.Dict.{lookup, insert, keys, contains}
use stream_flow.Dict.Laws.{lookup-insert}
use stream_flow.Int64.{put_uint32, get_uint32}
use stream_flow.Int64.Encoding.{length-put_uint32}
use stream_flow.Raft.Wal.{Dir, content, header, scan_frames, scan_file, read_files}

abbrev pub IsSmall : Bytes → Type 0
IsSmall p = length p < 2 ^ 32

-- A file of whole frames, by their payloads.
abbrev pub frames : List Bytes → Bytes
frames [] = []
frames (p ∷ ps) = header p ++ (p ++ frames ps)

length-header : (p : Bytes) → length (header p) ≡ 4
length-header p = length-put_uint32 (length p % 2 ^ 32)

-- A frame begun and not ended: less than a header, or less than the payload behind it.
pub data Tail : Bytes → Type 0 where
  in_header : (t : Bytes) → length t < 4 → Tail t
  in_payload : (p t : Bytes) → IsSmall p → length t < length p → Tail (header p ++ t)

header_read : (p rest : Bytes) → IsSmall p → get_uint32 (take 4 (header p ++ rest)) ≡ length p
unfolding put_uint32 get_uint32
header_read p rest h = omega arith

header_dropped : (p rest : Bytes) → drop 4 (header p ++ rest) ≡ rest
header_dropped p rest = drop-append_length 4 (header p) rest (sym (length-header p))

scan-frame :
    (fuel : ℕ) (p rest : Bytes)
    → IsSmall p
    → scan_frames (suc fuel) (header p ++ (p ++ rest)) ≡ p ++ scan_frames fuel rest
unfolding scan_frames
scan-frame fuel p rest h =
    let long : ltb (length (header p ++ (p ++ rest))) 4 ≡ false =
      ground (arith, length-append (header p) (p ++ rest), length-header p) in
    let enough : ltb (length (p ++ rest)) (length p) ≡ false =
      ground (arith, length-append p rest) in
    rw
      (
        long,
        header_read p (p ++ rest) h,
        header_dropped p (p ++ rest),
        enough,
        take-append_length (length p) p rest refl,
        drop-append_length (length p) p rest refl,
      )
      refl

scan-Tail : (fuel : ℕ) (t : Bytes) → Tail t → scan_frames fuel t ≡ []
unfolding scan_frames
scan-Tail zero t h = refl
scan-Tail (suc fuel) _ (in_header t h) =
    let short : ltb (length t) 4 ≡ true = ground arith in rw short refl
scan-Tail (suc fuel) _ (in_payload p t small h) =
    let long : ltb (length (header p ++ t)) 4 ≡ false =
      ground (arith, length-append (header p) t, length-header p) in
    let short : ltb (length t) (length p) ≡ true = ground arith in
    rw (long, header_read p t small, header_dropped p t, short) refl

-- The payloads are read, whatever unfinished frame follows.
scan_frames-frames :
    (fuel : ℕ) (ps : List Bytes) (t : Bytes)
    → All IsSmall ps
    → Tail t
    → length (frames ps) ≤ fuel
    → scan_frames fuel (frames ps ++ t) ≡ concat ps
scan_frames-frames fuel [] t small h n = scan-Tail fuel t h
scan_frames-frames zero (p ∷ ps) t small h n =
    absurd (omega (arith, length-append (header p) (p ++ frames ps), length-header p))
scan_frames-frames (suc fuel) (p ∷ ps) t small h n =
    let shape : frames (p ∷ ps) ++ t ≡ header p ++ (p ++ (frames ps ++ t)) =
      append_assoc (header p) (p ++ frames ps) t
      ∙ ap (λ l. header p ++ l) (append_assoc p (frames ps) t) in
    let enough : length (frames ps) ≤ fuel = omega (
      arith,
      n,
      length-append (header p) (p ++ frames ps),
      length-header p,
      length-append p (frames ps),
    ) in
    ap (scan_frames (suc fuel)) shape
    ∙ scan-frame fuel p (frames ps ++ t) small.0
    ∙ ap (λ l. p ++ l) (scan_frames-frames fuel ps t small.1 h enough)

pub scan_file-frames :
    (ps : List Bytes) (t : Bytes) → All IsSmall ps → Tail t → scan_file (frames ps ++ t) ≡ concat ps
scan_file-frames ps t small h =
    scan_frames-frames (length (frames ps ++ t)) ps t small h
      (omega (arith, length-append (frames ps) t))

pub frames-append :
    (ps : List Bytes) (p : Bytes) → frames (ps ++ (p ∷ [])) ≡ frames ps ++ (header p ++ p)
frames-append [] p = ap (λ l. header p ++ l) (append-nil p)
frames-append (q ∷ qs) p =
    ap (λ l. header q ++ (q ++ l)) (frames-append qs p)
    ∙ ap (λ l. header q ++ l) (sym (append_assoc q (frames qs) (header p ++ p)))
    ∙ sym (append_assoc (header q) (q ++ frames qs) (header p ++ p))

pub concat-append : (ps : List Bytes) (p : Bytes) → concat (ps ++ (p ∷ [])) ≡ concat ps ++ p
concat-append [] p = append-nil p
concat-append (q ∷ qs) p =
    ap (λ l. q ++ l) (concat-append qs p) ∙ sym (append_assoc q (concat qs) p)

-- What the files of these names hold.
abbrev pub contents : Dir → List Bytes → Bytes
contents d [] = []
contents d (name ∷ names) = scan_file (content (lookup name d)) ++ contents d names

pub read_files-contents :
    (d : Dir) (out : Bytes) (names : List Bytes)
    → read_files (λ n. false) d out names ≡ ok (out ++ contents d names)
unfolding read_files
read_files-contents d out [] = ap (λ l. ok l) (sym (append-nil out))
read_files-contents d out (name ∷ names) =
    read_files-contents d (out ++ scan_file (content (lookup name d))) names
    ∙ ap (λ l. ok l) (append_assoc out (scan_file (content (lookup name d))) (contents d names))

-- Writing a file that is there changes no name, and writing a file that is not read nothing else.
pub keys-insert :
    (name file file' : Bytes) (d : Dir)
    → lookup name d ≡ some file
    → keys (insert name file' d) ≡ keys d
unfolding lookup insert keys
keys-insert name file file' [] h = cc
keys-insert name file file' ((n, f) ∷ d) h =
    ground (arith, bytes_key.same_iff n name, keys-insert name file file' d)

pub contents-insert :
    (name file : Bytes) (d : Dir) (names : List Bytes)
    → contains name names ≡ false
    → contents (insert name file d) names ≡ contents d names
unfolding contains
contents-insert name file d [] h = refl
contents-insert name file d (n ∷ ns) h =
    let same : lookup n (insert name file d) ≡ lookup n d =
      ground (
        arith,
        lookup-insert name n file d,
        bytes_key.same_iff name n,
        bytes_key.same_iff n name,
      ) in
    rw same (
      ap (λ l. scan_file (content (lookup n d)) ++ l)
        (contents-insert name file d ns (ground arith)))

pub contents-append :
    (d : Dir) (names : List Bytes) (name : Bytes)
    → contents d (names ++ (name ∷ [])) ≡ contents d names ++ scan_file (content (lookup name d))
contents-append d [] name = append-nil (scan_file (content (lookup name d)))
contents-append d (n ∷ ns) name =
    ap (λ l. scan_file (content (lookup n d)) ++ l) (contents-append d ns name)
    ∙ sym (append_assoc (scan_file (content (lookup n d))) (contents d ns) _)
