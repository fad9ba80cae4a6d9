-- ===== src/Nodes/Queue/Tests.antt =====
-- Runs of the queue.
use cloudbase.Prelude.{
  ℕ, ◌≤◌, ◌≡◌, refl, true, some, List, [], ◌∷◌, arith, ◌==◌, count_where, order_by,
}
use cloudbase.Nodes.Queue.{
  item_of, QueueRequest, queue_node_command, claim_pending_commands, duplicate_of,
}
use cloudbase.Nodes.Queue.Once.{claimed, claimed_once}
use cloudbase.Nodes.Queue.Exact.{claim_pending_exact}
use cloudbase.Nodes.Queue.Dedupe.{queue_dedupe}
use cloudbase.Nodes.Sample.{start_web, start_replica, sample}

abbrev attempts : List (ℕ × ℕ)
attempts = (30, 1) ∷ (31, 2) ∷ (31, 1) ∷ (32, 3) ∷ (33, 2) ∷ []

claimed_once_example : count_where (λ i. i == 1) (claimed attempts sample.commands) ≤ 1
claimed_once_example = claimed_once 1 attempts sample.commands

claim_pending_exact_example :
    (claim_pending_commands 30 7 10 sample).0 ≡ item_of start_replica ∷ item_of start_web ∷ []
unfolding order_by
claim_pending_exact_example =
    claim_pending_exact 30 7 10 sample
      (((λ e. omega arith), ((λ e. omega arith), tt)), (((λ e. omega arith), tt), (tt, tt)))

abbrev again : QueueRequest
again = record {
  now = 40;
  fresh_id = 4;
  key = "k4";
  node_id = 7;
  command_type = "start_app";
  payload = [];
  app_id = some 3;
  allow_existing_inflight = true;
}

queue_dedupe_example :
    (count_where (duplicate_of 7 "start_app" (some 3)) (queue_node_command again sample).1.commands
      ≤ 1)
    × (duplicate_of 7 "start_app" (some 3) (queue_node_command again sample).0 ≡ true)
unfolding duplicate_of
queue_dedupe_example = queue_dedupe again sample 7 "start_app" (some 3) refl (omega arith)
