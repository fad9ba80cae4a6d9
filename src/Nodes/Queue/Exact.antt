-- ===== src/Nodes/Queue/Exact.antt =====
-- With no other claimer at work, a claimer gets what it saw.
use cloudbase.Prelude.{
  ℕ, min, max, ◌≡◌, refl, ◌≢◌, inl, inr, true, List, [], ◌∷◌, map, arith, Bool-cases, All, select,
  count_where, take, order_by,
}
use cloudbase.Prelude.Rows.{
  All-select, All-take, All-order_by, Distinct, Distinct-select, Distinct-take, Distinct-order_by,
}
use cloudbase.Nodes.{NodeCommand, Store}
use cloudbase.Nodes.Queue.{
  item_of, queued_with_id, claim, queued_for, pending, claim_each, claim_pending_commands,
}
use cloudbase.Nodes.Queue.Once.{count-claim}

abbrev pub DistinctIds : List NodeCommand → Type 0
DistinctIds cs = Distinct (λ (c : NodeCommand). c.id) cs

-- The command can still be claimed.
abbrev IsLive : List NodeCommand → NodeCommand → Type 0
IsLive cs c = count_where (queued_with_id c.id) cs ≡ 1

-- `seen` is what stays of the commands to claim after `c`.
IsLive-claim :
    (now : ℕ) (c : NodeCommand) (cs seen : List NodeCommand)
    → All (λ d. d.id ≢ c.id) seen
    → All (IsLive cs) seen
    → All (IsLive (claim now c.id cs).1) seen
IsLive-claim now c cs [] ne live = tt
IsLive-claim now c cs (d ∷ seen) (ne, nes) (live, lives) =
    (ground (arith, count-claim now c.id d.id cs), IsLive-claim now c cs seen nes lives)

claim-wins :
    (now id : ℕ) (cs : List NodeCommand)
    → count_where (queued_with_id id) cs ≡ 1
    → (claim now id cs).0 ≡ true
unfolding claim
claim-wins now id cs e = rw e

claim_each-eq-map :
    (now : ℕ) (seen cs : List NodeCommand)
    → DistinctIds seen
    → All (IsLive cs) seen
    → (claim_each now seen cs).0 ≡ map item_of seen
unfolding claim_each
claim_each-eq-map now [] cs d live = refl
claim_each-eq-map now (c ∷ seen) cs (ne, d) (live, lives) = rw (
  claim-wins now c.id cs live,
  claim_each-eq-map now seen (claim now c.id cs).1 d (IsLive-claim now c cs seen ne lives),
)

count-none :
    (k : ℕ) (cs : List NodeCommand) → All (λ d. d.id ≢ k) cs → count_where (queued_with_id k) cs ≡ 0
count-none k [] h = refl
count-none k (c ∷ cs) (h, hs) = ground (arith, count-none k cs)

IsLive-cons :
    (c : NodeCommand) (cs seen : List NodeCommand)
    → All (λ d. d.id ≢ c.id) seen
    → All (IsLive cs) seen
    → All (IsLive (c ∷ cs)) seen
IsLive-cons c cs [] h live = tt
IsLive-cons c cs (d ∷ seen) (h, hs) (live, lives) = (ground arith, IsLive-cons c cs seen hs lives)

IsLive-select :
    (node_id : ℕ) (cs : List NodeCommand)
    → DistinctIds cs
    → All (IsLive cs) (select (queued_for node_id) cs)
IsLive-select node_id [] d = tt
IsLive-select node_id (c ∷ cs) (ne, d) =
    let rest =
      IsLive-cons c cs (select (queued_for node_id) cs)
        (All-select (λ e. e.id ≢ c.id) (queued_for node_id) cs ne) (IsLive-select node_id cs d) in
    elim (Bool-cases (queued_for node_id c)) [
      | inl e ↦ rw e (ground (arith, count-none c.id cs ne), rest)
      | inr e ↦ rw e rest
    ]

-- With distinct ids in the table, a claimer that works alone gets exactly the commands that it saw:
-- the oldest queued ones of the node, oldest first, at most `limit` and never more than 100, where a
-- limit of 0 counts as 1.
pub claim_pending_exact :
    (now node_id limit : ℕ) (s : Store)
    → DistinctIds s.commands
    → (claim_pending_commands now node_id limit s).0
      ≡ map item_of (
          take
            (min (max limit 1) 100)
            (order_by (λ c. c.created_at) (select (queued_for node_id) s.commands)))
unfolding claim_pending_commands pending
claim_pending_exact now node_id limit s d =
    let chosen = select (queued_for node_id) s.commands in
    let sorted = order_by (λ (c : NodeCommand). c.created_at) chosen in
    let most = min (max limit 1) 100 in
    claim_each-eq-map now (take most sorted) s.commands
      (Distinct-take (λ c. c.id) most sorted
        (Distinct-order_by (λ c. c.id) (λ c. c.created_at) chosen
          (Distinct-select (λ c. c.id) (queued_for node_id) s.commands d)))
      (All-take (IsLive s.commands) most sorted (
        All-order_by (IsLive s.commands) (λ c. c.created_at) chosen
          (IsLive-select node_id s.commands d)))
