-- ===== src/Nodes/Queue/Once.antt =====
-- A command is handed out once, however many claimers compete for it.
use cloudbase.Prelude.{
  ℕ, ◌≤◌, ◌≡◌, refl, inl, inr, false, List, [], ◌∷◌, arith, ◌==◌, if◌then◌else◌, Bool-cases,
  count_where,
}
use cloudbase.Nodes.{NodeCommand}
use cloudbase.Nodes.Queue.{in_progress_at, queued_with_id, claim}

-- The ids that the claims of any number of claimers got, over a sequence of guarded updates of a time
-- and an id each.
abbrev pub claimed : List (ℕ × ℕ) → List NodeCommand → List ℕ
claimed [] cs = []
claimed ((now, id) ∷ attempts) cs =
    let (won, cs') = claim now id cs in
    let rest = claimed attempts cs' in if won then id ∷ rest else rest

queued_with_id-claim :
    (now id k : ℕ) (c : NodeCommand)
    → queued_with_id k (if queued_with_id id c then in_progress_at now c else c)
      ≡ (if id == k then false else queued_with_id k c)
queued_with_id-claim now id k c = elim (Bool-cases (queued_with_id id c)) [
  | inl e ↦ rw e (ground arith)
  | inr e ↦ rw e (ground arith)
]

pub count-claim :
    (now id k : ℕ) (cs : List NodeCommand)
    → count_where (queued_with_id k) (claim now id cs).1
      ≡ (if id == k then 0 else count_where (queued_with_id k) cs)
unfolding claim
count-claim now id k [] = ground arith
count-claim now id k (c ∷ cs) =
    ground (arith, count-claim now id k cs, queued_with_id-claim now id k c)

claimed-none :
    (k : ℕ) (attempts : List (ℕ × ℕ)) (cs : List NodeCommand)
    → count_where (queued_with_id k) cs ≡ 0
    → count_where (λ i. i == k) (claimed attempts cs) ≡ 0
unfolding claim
claimed-none k [] cs e = refl
claimed-none k ((now, id) ∷ attempts) cs e =
    ground (arith, count-claim now id k cs, claimed-none k attempts (claim now id cs).1)

-- Whatever claimers try to claim which commands, in whatever order their updates come, no command is
-- claimed twice, while nothing but claims writes to the table.
pub claimed_once :
    (k : ℕ) (attempts : List (ℕ × ℕ)) (cs : List NodeCommand)
    → count_where (λ i. i == k) (claimed attempts cs) ≤ 1
claimed_once k [] cs = omega arith
claimed_once k ((now, id) ∷ attempts) cs = ground (
  arith,
  claimed_once k attempts (claim now id cs).1,
  claimed-none k attempts (claim now id cs).1,
  count-claim now id k cs,
)
