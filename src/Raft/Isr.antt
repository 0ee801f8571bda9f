-- ===== src/Raft/Isr.antt =====
-- broker/internal/raft/isr.go: the in-sync replicas.
use stream_flow.Prelude.{ℕ, Bool, List, [], length, leb, number_key, if◌then◌else◌}
use stream_flow.Dict.{Dict, insert, delete, keys}
use stream_flow.Int64.{is_not_positive}

pub record IsrManager : Type 0 where
  pub members : Dict ℕ (Unit {0})
  pub min_isr : ℕ
  pub leader_id : ℕ

unfoldable pub new_isr_manager : ℕ → IsrManager
new_isr_manager min_isr = record {
  members = [];
  min_isr = if is_not_positive min_isr then 1 else min_isr;
  leader_id = 0;
}

unfoldable pub set_leader : ℕ → IsrManager → IsrManager
set_leader id m = record m { leader_id = id; members = insert id tt m.members }

unfoldable pub mark_in_sync : ℕ → IsrManager → IsrManager
mark_in_sync id m = record m { members = insert id tt m.members }

unfoldable pub mark_out_of_sync : ℕ → IsrManager → IsrManager
mark_out_of_sync id m = record m { members = delete id m.members }

unfoldable pub can_accept_writes : IsrManager → Bool
can_accept_writes m = leb m.min_isr (length m.members)

unfoldable pub members_of : IsrManager → List ℕ
members_of m = keys m.members
