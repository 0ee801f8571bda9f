-- ===== src/File/Laws.antt =====
-- A write changes nothing below its position, and what it wrote is read back.
use stream_flow.Prelude.{
  ℕ, ◌+◌, ◌≤◌, ◌≡◌, ◌-◌, refl, ◌∙◌, ap, sym, ◌++◌, Bytes, length, take, drop, arith, replicate,
  length-append, length-take, length-drop, take-append, take-append_length, drop-append_length,
  take-take, take-drop-take,
}
use stream_flow.File.{overwrite, read_at}

-- At or below the end of the file there is no gap.
overwrite_inside :
    (pos : ℕ) (bs file : Bytes)
    → pos ≤ length file
    → overwrite pos bs file ≡ take pos file ++ (bs ++ drop (pos + length bs) file)
unfolding overwrite
overwrite_inside pos bs file h = rw (take-append pos file (replicate (pos - length file) 0) h)

pub take-overwrite :
    (n pos : ℕ) (bs file : Bytes)
    → n ≤ pos
    → pos ≤ length file
    → take n (overwrite pos bs file) ≡ take n file
take-overwrite n pos bs file h k =
    rw (overwrite_inside pos bs file k) (
      take-append n (take pos file) _ (omega (arith, length-take pos file))
      ∙ take-take n pos file h)

pub length-overwrite :
    (pos : ℕ) (bs file : Bytes)
    → pos ≤ length file
    → (length file ≤ length (overwrite pos bs file))
      × (pos + length bs ≤ length (overwrite pos bs file))
length-overwrite pos bs file k =
    rw (overwrite_inside pos bs file k)
      (omega (arith, length-append {0}, length-take {0}, length-drop {0}))

pub drop-overwrite :
    (pos : ℕ) (bs file : Bytes)
    → pos ≤ length file
    → take (length bs) (drop pos (overwrite pos bs file)) ≡ bs
drop-overwrite pos bs file k = rw (overwrite_inside pos bs file k) (
    rw
      (drop-append_length pos (take pos file) (bs ++ drop (pos + length bs) file)
        (omega (arith, length-take pos file)))
      (take-append_length (length bs) bs _ refl))

-- What is read within the first `k` bytes depends on these only.
pub read_at-take :
    (n pos k : ℕ) (file file' : Bytes)
    → take k file ≡ take k file'
    → pos + n ≤ k
    → k ≤ length file
    → k ≤ length file'
    → read_at n pos file ≡ read_at n pos file'
unfolding read_at
read_at-take n pos k file file' e h l l' =
    let same : take n (drop pos file) ≡ take n (drop pos file') =
      sym (take-drop-take pos n k file h)
      ∙ ap (λ t. take n (drop pos t)) e
      ∙ take-drop-take pos n k file' h in
    ground (arith, same)
