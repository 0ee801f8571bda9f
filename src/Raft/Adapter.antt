-- ===== src/Raft/Adapter.antt =====
-- broker/internal/raft/persistent_storage.go: the entries of the log as a raft storage.
use stream_flow.Prelude.{
  ℕ, ◌&&◌, Option, none, some, List, [], ◌∷◌, ◌++◌, length, ltb, leb, ◌==◌, get_last?,
  if◌then◌else◌,
}
use stream_flow.Raft.Entries.{Proto}

module _ (proto : Proto) where
  open proto use {Entry, index, term}

  -- The loop of `Entries`; a `maxSize` of 0 is no limit.
  unfoldable pub entries_loop : ℕ → ℕ → ℕ → List Entry → List Entry → List Entry
  entries_loop lo hi max_size out [] = out
  entries_loop lo hi max_size out (e ∷ es) =
      let out' : List Entry =
        if leb lo (index e) && ltb (index e) hi then out ++ (e ∷ []) else out in
      let more = entries_loop lo hi max_size out' es in
      if leb lo (index e) && ltb (index e) hi && ltb 0 max_size && leb max_size (length out')
      then out'
      else more

  -- `none` is ErrUnavailable.
  abbrev pub some_entries : List Entry → Option (List Entry)
  some_entries [] = none
  some_entries (e ∷ es) = some (e ∷ es)

  unfoldable pub entries : List Entry → ℕ → ℕ → ℕ → Option (List Entry)
  unfolding entries_loop
  entries ents lo hi max_size = some_entries (entries_loop lo hi max_size [] ents)

  unfoldable pub term_loop : ℕ → List Entry → Option ℕ
  term_loop i [] = none
  term_loop i (e ∷ es) = if index e == i then some (term e) else term_loop i es

  unfoldable pub term_of : List Entry → ℕ → Option ℕ
  unfolding term_loop
  term_of ents i = if i == 0 then some 0 else term_loop i ents

  unfoldable pub last_index : List Entry → ℕ
  last_index ents = elim (get_last? ents) [ none ↦ 0 | some e ↦ index e ]

  unfoldable pub first_index : List Entry → ℕ
  first_index [] = 1
  first_index (e ∷ es) = index e
