-- ===== src/Nodes/Queue/Plain.antt =====
-- Queueing without `allow_existing_inflight`.
use cloudbase.Prelude.{◌≡◌, refl, false, [], ◌∷◌, ◌++◌}
use cloudbase.Nodes.{Store, wake_node}
use cloudbase.Nodes.Queue.{
  QueueRequest, command_of, existing_command, add_command, queue_node_command,
}

pub queue_added :
    (q : QueueRequest) (s : Store)
    → q.allow_existing_inflight ≡ false
    → queue_node_command q s ≡ (
      command_of q,
      record s { commands = s.commands ++ command_of q ∷ [] },
      wake_node q.node_id ∷ [],
    )
unfolding queue_node_command existing_command add_command
queue_added q s off = rw (queue_node_command, existing_command, off) refl
