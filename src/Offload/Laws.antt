-- ===== src/Offload/Laws.antt =====
-- What a client may rely on after an upload, and that the directory of buckets grants it.
use stream_flow.Prelude.{
  ℕ, ◌≡◌, ◌⊎◌, inl, inr, refl, sym, ap, ◌∙◌, subst, Bool, true, false, ◌&&◌, some, List, [], ◌∷◌,
  Bytes, Option, Option-cases, Bool-cases, filter, bytes_key, same_bytes, arith, if◌then◌else◌,
}
use stream_flow.Prelude.Action.{ok}
use stream_flow.Dict.{Dict, lookup, insert, keys, contains}
use stream_flow.Dict.Laws.{is_present, contains-keys, lookup-insert, lookup-insert_self, same_refl}
use stream_flow.File.{Outcome, done, failed}
use stream_flow.Sort.{sort, less_bytes}
use stream_flow.Sort.Laws.{contains-sort}
use stream_flow.Offload.{
  Offloader, Faults, Buckets, files_of, has_prefix, local_upload, local_download, local_list,
  local_offloader,
}

pub contains-filter :
    (p : Bytes → Bool) (k : Bytes) (l : List Bytes)
    → contains k (filter p l) ≡ (p k && contains k l)
unfolding contains
contains-filter p k [] = ground arith
contains-filter p k (x ∷ xs) = ground (arith, bytes_key.same_iff x k, contains-filter p k xs)

-- The keys that are listed in a store, as far as it can be listed.
pub record IsListed (o : Offloader) (bucket prefix k : Bytes) (s : o.Store) : Type 0 where
  pub names : List Bytes
  pub listed : o.list bucket prefix s ≡ ok names
  pub there : contains k names ≡ true

pub record Keeps (o : Offloader) : Type 0 where
  -- What was uploaded is downloaded again.
  pub kept :
      (bucket key bs place : Bytes) (s s' : o.Store)
      → o.upload bucket key bs s ≡ (s', ok place)
      → o.download bucket key s' ≡ ok bs
  -- Its key is listed, and no other key that was not listed before.
  pub listed :
      (bucket prefix key bs place : Bytes) (s s' : o.Store)
      → o.upload bucket key bs s ≡ (s', ok place)
      → has_prefix prefix key ≡ true
      → IsListed o bucket prefix key s'
  pub only :
      (bucket prefix key bs place k : Bytes) (s s' : o.Store)
      → o.upload bucket key bs s ≡ (s', ok place)
      → IsListed o bucket prefix k s'
      → (k ≡ key) ⊎ IsListed o bucket prefix k s

Outcome-cases : (w : Outcome) → (w ≡ done) ⊎ ((n : ℕ) × (w ≡ failed n))
Outcome-cases done = inl refl
Outcome-cases (failed n) = inr (n, refl)

files_of-insert :
    (bucket : Bytes) (files : Dict Bytes Bytes) (s : Buckets)
    → files_of bucket (insert bucket files s) ≡ files
files_of-insert bucket files s = rw (files_of, lookup-insert_self bucket files s) refl

is_present-if :
    (b : Bool) (bs : Bytes) (o : Option Bytes)
    → is_present (if b then some bs else o) ≡ (if b then true else is_present o)
is_present-if b bs o = ground arith

module _ (dir : Bytes) (f : Faults) (opens : f.open_fails ≡ false)
    (reads : f.read_dir_fails ≡ false) where
  -- An upload that succeeds has written the file.
  uploaded :
      (bucket key bs place : Bytes) (s s' : Buckets)
      → local_upload dir f bucket key bs s ≡ (s', ok place)
      → s' ≡ insert bucket (insert key bs (files_of bucket s)) s
  unfolding local_upload
  uploaded bucket key bs place s s' h = elim (Outcome-cases f.copy) [
    | inl fine ↦ ground (arith, fine, h)
    | inr (n, torn) ↦ absurd (ground (arith, torn, h))
  ]

  kept_lem :
      (bucket key bs place : Bytes) (s s' : Buckets)
      → local_upload dir f bucket key bs s ≡ (s', ok place)
      → local_download dir f bucket key s' ≡ ok bs
  unfolding local_download
  kept_lem bucket key bs place s s' h =
      rw
        (
          uploaded bucket key bs place s s' h,
          local_download,
          files_of-insert bucket (insert key bs (files_of bucket s)) s,
          lookup-insert_self key bs (files_of bucket s),
          opens,
        )
        refl

  list_here :
      (bucket prefix key bs : Bytes) (s : Buckets)
      → local_list dir f bucket prefix (insert bucket (insert key bs (files_of bucket s)) s)
        ≡ ok (
            filter (has_prefix prefix) (sort less_bytes (keys (insert key bs (files_of bucket s)))))
  unfolding local_list
  list_here bucket prefix key bs s =
      rw (local_list, lookup-insert_self bucket (insert key bs (files_of bucket s)) s, reads) refl

  -- What is listed after the upload of `key`.
  contains-listed :
      (prefix key bs k : Bytes) (files : Dict Bytes Bytes)
      → contains k (filter (has_prefix prefix) (sort less_bytes (keys (insert key bs files))))
        ≡ (has_prefix prefix k && (if same_bytes key k then true else is_present (lookup k files)))
  contains-listed prefix key bs k files =
      contains-filter (has_prefix prefix) k (sort less_bytes (keys (insert key bs files)))
      ∙ ap (λ b. has_prefix prefix k && b)
          (contains-sort less_bytes k (keys (insert key bs files))
            ∙ contains-keys k (insert key bs files)
            ∙ ap is_present (lookup-insert key k bs files)
            ∙ is_present-if (same_bytes key k) bs (lookup k files))

  before_upload :
      (bucket prefix k : Bytes) (s : Buckets)
      → has_prefix prefix k ≡ true
      → is_present (lookup k (files_of bucket s)) ≡ true
      → IsListed (local_offloader dir f) bucket prefix k s
  unfolding local_list lookup
  before_upload bucket prefix k s fits here = elim (Option-cases (lookup bucket s)) [
    | inl e ↦ absurd (ground (arith, e, here))
    | inr (files, e) ↦ record {
      names = filter (has_prefix prefix) (sort less_bytes (keys files));
      listed = rw (local_list, e, reads) refl;
      there =
          contains-filter (has_prefix prefix) k (sort less_bytes (keys files))
          ∙ ground (
            arith,
            fits,
            contains-sort less_bytes k (keys files),
            contains-keys k files,
            e,
            here,
          );
    }
  ]

  pub local_offloader-Keeps : Keeps (local_offloader dir f)
  local_offloader-Keeps = record {
    kept = kept_lem;
    listed = λ bucket prefix key bs place s s' h fits.
        subst (λ q. IsListed (local_offloader dir f) bucket prefix key q)
          (sym (uploaded bucket key bs place s s' h))
          (record {
            names =
                filter (has_prefix prefix)
                  (sort less_bytes (keys (insert key bs (files_of bucket s))));
            listed = list_here bucket prefix key bs s;
            there =
                contains-listed prefix key bs key (files_of bucket s)
                ∙ ground (arith, fits, same_refl key);
          });
    only = λ bucket prefix key bs place k s s' h i.
        let same : ok i.names
            ≡ ok (
                filter (has_prefix prefix)
                  (sort less_bytes (keys (insert key bs (files_of bucket s))))) =
          sym i.listed
          ∙ ap (local_list dir f bucket prefix) (uploaded bucket key bs place s s' h)
          ∙ list_here bucket prefix key bs s in
        let names_are : i.names
            ≡ filter (has_prefix prefix)
                (sort less_bytes (keys (insert key bs (files_of bucket s)))) =
          cc in
        let here : (has_prefix prefix k
              && (if same_bytes key k then true else is_present (lookup k (files_of bucket s))))
            ≡ true =
          sym (contains-listed prefix key bs k (files_of bucket s))
          ∙ sym (ap (contains k) names_are)
          ∙ i.there in
        elim (Bool-cases (same_bytes key k)) [
          | inl yes' ↦ inl (sym ((bytes_key.same_iff key k).0 yes'))
          | inr no' ↦
              inr
                (before_upload bucket prefix k s (ground (arith, here)) (ground (arith, here, no')))
        ];
  }
