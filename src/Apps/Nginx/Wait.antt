-- ===== src/Apps/Nginx/Wait.antt =====
-- `_wait_for_app_backends_ready`: the polls of one look of the task behind a page.
use cloudbase.Prelude.{
  ℕ, zero, suc, ◌+◌, ◌≤◌, ◌<◌, max, ◌≡◌, refl, sym, ◌∙◌, inl, inr, ◌⊎◌, Bool, true, false, not,
  ◌&&◌, Option, none, some, List, arith, ltb, leb, ◌==◌, if◌then◌else◌, Bool-cases, length,
  count_where, is_some,
}

-- What one poll sees: whether the application is there, its backends, each with the answer of its
-- port, none where no port can be read; and the whole seconds that the poll takes.
pub record Poll : Type 0 where
  pub app_exists : Bool
  pub backends : List (Option Bool)
  pub took : ℕ

abbrev pub restart_ready_timeout_seconds : ℕ
restart_ready_timeout_seconds = 180

abbrev pub restart_ready_poll_seconds : ℕ
restart_ready_poll_seconds = 1

-- `math.ceil(checked * RESTART_READY_MIN_HEALTHY_RATIO)`, of the ratio 0.5.
abbrev pub half_up : ℕ → ℕ
half_up zero = 0
half_up (suc zero) = 1
half_up (suc (suc n)) = suc (half_up n)

abbrev pub is_healthy : Option Bool → Bool
is_healthy none = false
is_healthy (some b) = b

-- Whether enough of the checked backends are healthy.
abbrev pub has_quorum : List (Option Bool) → Bool
has_quorum backends =
    let checked = count_where is_some backends in
    not (checked == 0) && leb (max 1 (half_up checked)) (count_where is_healthy backends)

-- What follows from a poll: the application is gone, it is ready, or the next poll starts with a count
-- of healthy polls.
pub data Verdict : Type 0 where
  app_removed : Verdict
  backends_ready : Verdict
  poll_again : ℕ → Verdict

unfoldable pub verdict : Poll → ℕ → Verdict
verdict poll stable =
    if not poll.app_exists
    then app_removed
    else if length poll.backends == 0
    then poll_again stable
    else if has_quorum poll.backends
    then (if leb 2 (suc stable) then backends_ready else poll_again (suc stable))
    else poll_again 0

-- Whether the backends were ready, and when the wait ended.
abbrev pub Waited : Type 0
Waited = Bool × ℕ

-- `polls` is what a poll that starts at a time sees.
abbrev pub wait_loop : (ℕ → Poll) → ℕ → ℕ → ℕ → ℕ → Waited
wait_loop polls deadline zero now stable = (false, now)
wait_loop polls deadline (suc fuel) now stable = elim (ltb now deadline) [
  | false ↦ (false, now)
  | true ↦ elim (verdict (polls now) stable) [
    | app_removed ↦ (false, now + (polls now).took)
    | backends_ready ↦ (true, now + (polls now).took)
    | poll_again k ↦
        wait_loop polls deadline fuel (now + (polls now).took + restart_ready_poll_seconds) k
  ]
]

-- Each poll sleeps for a second, so that there are at most as many as the timeout has seconds.
unfoldable pub wait_for_app_backends_ready : (ℕ → Poll) → ℕ → Waited
wait_for_app_backends_ready polls now =
    wait_loop polls (now + restart_ready_timeout_seconds) restart_ready_timeout_seconds now 0

Verdict-cases :
    (v : Verdict) → (v ≡ app_removed) ⊎ (v ≡ backends_ready) ⊎ ((k : ℕ) × (v ≡ poll_again k))
Verdict-cases app_removed = inl refl
Verdict-cases backends_ready = inr (inl refl)
Verdict-cases (poll_again k) = inr (inr (k, refl))

removed-app_exists : (p : Poll) (stable : ℕ) → verdict p stable ≡ app_removed → p.app_exists ≡ false
unfolding verdict
removed-app_exists p stable v = ground arith

module _ (polls : ℕ → Poll) (deadline : ℕ) where
  abbrev next_poll : ℕ → ℕ
  next_poll now = now + (polls now).took + restart_ready_poll_seconds

  module _ (fuel now stable : ℕ) where
    loop_over :
        ltb now deadline ≡ false → wait_loop polls deadline (suc fuel) now stable ≡ (false, now)
    loop_over e = rw (wait_loop, e) refl

    module _ (early : ltb now deadline ≡ true) where
      loop_removed :
          verdict (polls now) stable ≡ app_removed
          → wait_loop polls deadline (suc fuel) now stable ≡ (false, now + (polls now).took)
      loop_removed v = rw (wait_loop, early, v) refl

      loop_ready :
          verdict (polls now) stable ≡ backends_ready
          → wait_loop polls deadline (suc fuel) now stable ≡ (true, now + (polls now).took)
      loop_ready v = rw (wait_loop, early, v) refl

      loop_again :
          (k : ℕ)
          → verdict (polls now) stable ≡ poll_again k
          → wait_loop polls deadline (suc fuel) now stable
            ≡ wait_loop polls deadline fuel (next_poll now) k
      loop_again k v = rw (wait_loop, early, v) refl

  -- More fuel than the seconds that are left changes nothing.
  wait_loop-fuel :
      (fuel fuel' now stable : ℕ)
      → deadline ≤ now + fuel
      → fuel ≤ fuel'
      → wait_loop polls deadline fuel' now stable ≡ wait_loop polls deadline fuel now stable
  wait_loop-fuel zero zero now stable enough more = refl
  wait_loop-fuel zero (suc fuel') now stable enough more = loop_over fuel' now stable (ground arith)
  wait_loop-fuel (suc fuel) zero now stable enough more = absurd (omega arith)
  wait_loop-fuel (suc fuel) (suc fuel') now stable enough more =
      elim (Bool-cases (ltb now deadline)) [
        | inr e ↦ loop_over fuel' now stable e ∙ sym (loop_over fuel now stable e)
        | inl e ↦ elim (Verdict-cases (verdict (polls now) stable)) [
          | inl v ↦ loop_removed fuel' now stable e v ∙ sym (loop_removed fuel now stable e v)
          | inr (inl v) ↦ loop_ready fuel' now stable e v ∙ sym (loop_ready fuel now stable e v)
          | inr (inr (k, v)) ↦
              loop_again fuel' now stable e k v
              ∙ wait_loop-fuel fuel fuel' (next_poll now) k (omega arith) (omega arith)
              ∙ sym (loop_again fuel now stable e k v)
        ]
      ]

  -- The wait is over when the last poll is, which has started before the deadline.
  wait_loop-end :
      (longest : ℕ)
      → ((t : ℕ) → (polls t).took ≤ longest)
      → (fuel now stable : ℕ) → now ≤ deadline + longest + 1
      → (wait_loop polls deadline fuel now stable).1 ≤ deadline + longest + 1
  wait_loop-end longest short zero now stable early = early
  wait_loop-end longest short (suc fuel) now stable early = elim (Bool-cases (ltb now deadline)) [
    | inr e ↦ rw (loop_over fuel now stable e) early
    | inl e ↦
        let before : now < deadline = ground arith in
        let quick = short now in
        elim (Verdict-cases (verdict (polls now) stable)) [
          | inl v ↦ rw (loop_removed fuel now stable e v) (omega arith)
          | inr (inl v) ↦ rw (loop_ready fuel now stable e v) (omega arith)
          | inr (inr (k, v)) ↦
              rw (loop_again fuel now stable e k v)
                (wait_loop-end longest short fuel (next_poll now) k (omega arith))
        ]
  ]

  -- A wait that ends without healthy backends has gone on for the whole timeout, unless the application
  -- was gone.
  wait_loop-patient :
      (fuel now stable : ℕ)
      → deadline ≤ now + fuel
      → ((wait_loop polls deadline fuel now stable).0 ≡ true)
        ⊎ (deadline ≤ (wait_loop polls deadline fuel now stable).1)
        ⊎ ((t : ℕ) × ((polls t).app_exists ≡ false))
  unfolding verdict
  wait_loop-patient zero now stable enough = inr (inl (omega arith))
  wait_loop-patient (suc fuel) now stable enough = elim (Bool-cases (ltb now deadline)) [
    | inr e ↦
        let late : deadline ≤ now = ground arith in
        rw (loop_over fuel now stable e) (inr (inl late))
    | inl e ↦ elim (Verdict-cases (verdict (polls now) stable)) [
      | inl v ↦ inr (inr (now, removed-app_exists (polls now) stable v))
      | inr (inl v) ↦ rw (loop_ready fuel now stable e v) (inl refl)
      | inr (inr (k, v)) ↦
          rw (loop_again fuel now stable e k v)
            (wait_loop-patient fuel (next_poll now) k (omega arith))
    ]
  ]

module _ (polls : ℕ → Poll) (now : ℕ) where
  -- The wait needs no more fuel than it is given.
  wait-fuel :
      (fuel : ℕ)
      → restart_ready_timeout_seconds ≤ fuel
      → wait_loop polls (now + restart_ready_timeout_seconds) fuel now 0
        ≡ wait_for_app_backends_ready polls now
  unfolding wait_for_app_backends_ready
  wait-fuel fuel enough =
      wait_loop-fuel polls (now + restart_ready_timeout_seconds) restart_ready_timeout_seconds fuel
        now 0 (omega arith) enough

  pub wait-end :
      (longest : ℕ)
      → ((t : ℕ) → (polls t).took ≤ longest)
      → (wait_for_app_backends_ready polls now).1 ≤ now + 181 + longest
  unfolding wait_for_app_backends_ready
  wait-end longest short =
      let last = wait_loop-end polls (now + 180) longest short 180 now 0 (omega arith) in
      omega arith

  pub wait-patient :
      ((wait_for_app_backends_ready polls now).0 ≡ true)
      ⊎ (now + 180 ≤ (wait_for_app_backends_ready polls now).1)
      ⊎ ((t : ℕ) × ((polls t).app_exists ≡ false))
  unfolding wait_for_app_backends_ready
  wait-patient = wait_loop-patient polls (now + 180) 180 now 0 (omega arith)
