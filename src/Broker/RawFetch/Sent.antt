-- ===== src/Broker/RawFetch/Sent.antt =====
-- What sending a part of a file writes.
use Prim.Native.Nat.{min}
use stream_flow.Prelude.{
  ℕ, zero, suc, ◌+◌, ◌-◌, ◌≤◌, ◌<◌, ◌≡◌, refl, subst, ap, sym, ◌∙◌, Bool, true, false, Option, none,
  some, List, [], ◌∷◌, ◌++◌, Bytes, length, length-drop, take, take_all, drop, arith, ◌==◌, ==_iff,
  if◌then◌else◌, ltb, not, ◌&&◌,
}
use mathlib.Core.List.{append_assoc, append-nil}
use stream_flow.Broker.RawFetch.{
  Round, SendError, Sending, buffer_size, bytes_read, fallback_loop, send_file_fallback, read_error,
  write_error, short_write,
}

suc-add : (m n : ℕ) → suc m + n ≡ suc (m + n)
suc-add m n = omega arith

take-add : (m n : ℕ) (xs : Bytes) → take (m + n) xs ≡ take m xs ++ take n (drop m xs)
take-add zero n xs = ap (λ k. take k xs) (omega arith)
take-add (suc m) n [] = take_all (suc m + n) [] (omega arith) ∙ sym (take_all n [] (omega arith))
take-add (suc m) n (x ∷ xs) =
    ap (λ k. take k (x ∷ xs)) (suc-add m n) ∙ ap (λ l. x ∷ l) (take-add m n xs)

-- The first bytes of `rest` behind `out`, as many as are counted and no more than `remain`; all of
-- them, or up to the end of the file, when there is no error.
pub record IsSent (rest : Bytes) (remain : ℕ) (out : Bytes) (copied : ℕ) (s : Sending)
    : Type 0 where
  pub sent : ℕ
  pub written : s.0 ≡ out ++ take sent rest
  pub counted : s.1 ≡ copied + sent
  pub within : sent ≤ remain
  pub complete : s.2 ≡ none → sent ≡ min remain (length rest)

-- What one round sends, in front of what the others do.
round-IsSent :
    (n : ℕ) (rest : Bytes) (remain : ℕ) (out : Bytes) (copied : ℕ) (s : Sending)
    → n ≤ remain
    → n ≤ length rest
    → IsSent (drop n rest) (remain - n) (out ++ take n rest) (copied + n) s
    → IsSent rest remain out copied s
round-IsSent n rest remain out copied s h k i = record {
  sent = n + i.sent;
  written =
      i.written
      ∙ append_assoc out (take n rest) (take i.sent (drop n rest))
      ∙ ap (λ l. out ++ l) (sym (take-add n i.sent rest));
  counted = omega (arith, i.counted);
  within = omega (arith, i.within);
  complete = λ e. omega (arith, i.complete e, length-drop n rest);
}

stop-IsSent :
    (n : ℕ) (rest : Bytes) (remain : ℕ) (out : Bytes) (copied : ℕ) (e : SendError)
    → n ≤ remain
    → IsSent rest remain out copied (out ++ take n rest, copied + n, some e)
stop-IsSent n rest remain out copied e h = record {
  sent = n;
  written = refl;
  counted = refl;
  within = h;
  complete = λ f. cc;
}

end-IsSent :
    (n : ℕ) (rest : Bytes) (remain : ℕ) (out : Bytes) (copied : ℕ)
    → n ≡ min remain (length rest)
    → IsSent rest remain out copied (out ++ take n rest, copied + n, none)
end-IsSent n rest remain out copied h = record {
  sent = n;
  written = refl;
  counted = refl;
  within = omega arith;
  complete = λ f. h;
}

done-IsSent :
    (rest : Bytes) (remain : ℕ) (out : Bytes) (copied : ℕ)
    → (remain == 0) ≡ true
    → IsSent rest remain out copied (out, copied, none)
done-IsSent rest remain out copied h = record {
  sent = 0;
  written = sym (append-nil out);
  counted = omega arith;
  within = omega arith;
  complete = λ f. ground (arith, h);
}

abbrev EndsAs : Bytes → ℕ → Bytes → ℕ → Option Sending → Type 0
EndsAs rest remain out copied o = (s : Sending) × (o ≡ some s) × IsSent rest remain out copied s

if-EndsAs :
    (b : Bool) {x y : Option Sending} {rest : Bytes} {remain : ℕ} {out : Bytes} {copied : ℕ}
    → (b ≡ true → EndsAs rest remain out copied x)
    → (b ≡ false → EndsAs rest remain out copied y)
    → EndsAs rest remain out copied (if b then x else y)
if-EndsAs true f g = f refl
if-EndsAs false f g = g refl

same-EndsAs :
    (n wn : ℕ) (rest : Bytes) (remain : ℕ) (out : Bytes) (copied : ℕ) (o : Option Sending)
    → wn ≡ n
    → n ≤ remain
    → n ≤ length rest
    → EndsAs (drop n rest) (remain - n) (out ++ take wn rest) (copied + wn) o
    → EndsAs rest remain out copied o
same-EndsAs n wn rest remain out copied o same h k (s, e, i) = (
  s,
  e,
  round-IsSent n rest remain out copied s h k
      (subst (λ m. IsSent (drop n rest) (remain - n) (out ++ take m rest) (copied + m) s) same i),
)

same_number : (a b : ℕ) → not (a == b) ≡ false → a ≡ b
same_number a b h = ground arith

positive : (n : ℕ) → (n == 0) ≡ false → 0 < n
positive n h = ground arith

-- A read that reports no error and reads nothing is at the end.
nothing_left :
    (r : Round) (left remain : ℕ)
    → r.read_fails ≡ false
    → bytes_read r left remain ≡ 0
    → min remain left ≡ 0
nothing_left r left remain fine h =
    let e : min (min (suc r.more_bytes) (min remain buffer_size)) left ≡ 0 = rw fine at h in
    omega (arith, e)

fallback_loop-EndsAs :
    (rounds : List Round) (rest : Bytes) (remain : ℕ) (out : Bytes) (copied : ℕ)
    → remain ≤ length rounds
    → EndsAs rest remain out copied (fallback_loop rounds rest remain out copied)
unfolding fallback_loop
fallback_loop-EndsAs [] rest remain out copied h =
    if-EndsAs (remain == 0)
      (λ all. ((out, copied, none), refl, done-IsSent rest remain out copied all))
      (λ more. absurd (ground (arith, h, more)))
fallback_loop-EndsAs (r ∷ rs) rest remain out copied h =
    let n = bytes_read r (length rest) remain in
    let wn = min r.taken n in
    let out' = out ++ take wn rest in
    let stops : (e : SendError) → EndsAs rest remain out copied (some (out', copied + wn, some e)) =
      λ e. (
        (out', copied + wn, some e),
        refl,
        stop-IsSent wn rest remain out copied e (omega arith),
      ) in
    if-EndsAs (remain == 0)
      (λ all. ((out, copied, none), refl, done-IsSent rest remain out copied all))
      (λ more.
        if-EndsAs (r.write_fails && ltb 0 n) (λ failed. stops write_error)
          (λ wrote.
            if-EndsAs (not (wn == n)) (λ short. stops short_write)
              (λ full.
                if-EndsAs r.read_fails (λ failed. stops read_error)
                  (λ read.
                    if-EndsAs (n == 0)
                      (λ at_end. (
                        (out', copied + wn, none),
                        refl,
                        end-IsSent wn rest remain out copied (
                            same_number wn n full
                            ∙ (==_iff n 0).0 at_end
                            ∙ sym
                                (nothing_left r (length rest) remain read ((==_iff n 0).0 at_end))),
                      ))
                      (λ going.
                        same-EndsAs n wn rest remain out copied _ (same_number wn n full)
                          (omega arith) (omega arith)
                          (fallback_loop-EndsAs rs (drop n rest) (remain - n) out' (copied + wn)
                            (omega (arith, positive n going))))))))

pub send_file_fallback-IsSent :
    (rounds : List Round) (file : Bytes) (off count : ℕ)
    → count ≤ length rounds
    → (s : Sending) × (send_file_fallback false rounds file off count ≡ some s)
      × IsSent (drop off file) count [] 0 s
unfolding send_file_fallback
send_file_fallback-IsSent rounds file off count h =
    fallback_loop-EndsAs rounds (drop off file) count [] 0 h
