-- ===== src/RateLimit/Window.antt =====
-- The limit over a whole run of login requests.
use cloudbase.Prelude.{
  ℕ, ◌+◌, ◌-◌, ◌≤◌, ◌<◌, ◌≡◌, refl, ap, ◌⊎◌, inl, inr, String, Bool, List, [], ◌∷◌, ◌++◌, ◌&&◌,
  arith, leb, ltb, length, length-append, select, All, str_eq, eq_iff, if◌then◌else◌,
}
use cloudbase.Prelude.Result.{ok, raise, is_ok}
use cloudbase.RateLimit.{max_attempts, window, Attempts, recent, check_rate_limit}

-- Whether the attempt `a` falls in the window that ends at `t`.
abbrev pub in_window : ℕ → ℕ → Bool
in_window t a = leb a t && ltb (t - a) window

-- The accepted times of `ip`, the newest first, over requests of an address and a time.
abbrev pub accepted_from : String → List ℕ → Attempts → List (String × ℕ) → List ℕ
accepted_from ip h a [] = h
accepted_from ip h a ((j, now) ∷ rest) =
    let (r, a') = check_rate_limit j now a in
    accepted_from ip (if str_eq j ip && is_ok r then now ∷ h else h) a' rest

abbrev pub nothing : Attempts
nothing ip = []

abbrev pub accepted : String → List (String × ℕ) → List ℕ
accepted ip requests = accepted_from ip [] nothing requests

-- The clock does not run backwards.
abbrev pub IsMonotone : ℕ → List (String × ℕ) → Type 0
IsMonotone last [] = Unit
IsMonotone last ((j, now) ∷ rest) = (last ≤ now) × IsMonotone now rest

recent-append : (now : ℕ) (ts us : List ℕ) → recent now (ts ++ us) ≡ recent now ts ++ recent now us
recent-append now [] us = refl
recent-append now (t ∷ ts) us = ground (arith, recent-append now ts us)

-- Pruning twice, later the second time, is pruning once.
recent-recent :
    (now later : ℕ) (ts : List ℕ) → now ≤ later → recent later (recent now ts) ≡ recent later ts
recent-recent now later [] h = refl
recent-recent now later (t ∷ ts) h = ground (arith, recent-recent now later ts h)

-- What the stored attempts of `ip` know of its history `h`, from the time `last` on.
abbrev Tracks : ℕ → List ℕ → List ℕ → Type 0
Tracks last ts h = (now : ℕ) → last ≤ now → length (recent now ts) ≡ length (recent now h)

abbrev IsBounded : List ℕ → Type 0
IsBounded h = (t : ℕ) → length (select (in_window t) h) ≤ max_attempts

in_window-le-recent :
    (now t : ℕ) (h : List ℕ) → now ≤ t → length (select (in_window t) h) ≤ length (recent now h)
in_window-le-recent now t [] le = omega arith
in_window-le-recent now t (a ∷ h) le = ground (arith, in_window-le-recent now t h le)

-- An accepted attempt keeps the bound, whatever the window.
IsBounded-cons :
    (now : ℕ) (h : List ℕ) (t : ℕ)
    → IsBounded h
    → length (recent now h) < max_attempts
    → length (select (in_window t) (now ∷ h)) ≤ max_attempts
IsBounded-cons now h t b few = ground (arith, b t, in_window-le-recent now t h)

abbrev after : String → String → ℕ → Attempts → List ℕ → List ℕ
after ip j now a h = if str_eq j ip && is_ok (check_rate_limit j now a).0 then now ∷ h else h

module _ (ip j : String) (last now : ℕ) (a : Attempts) (h : List ℕ) (le : last ≤ now)
    (tracks : Tracks last (a ip) h) where
  check_rate_limit-Tracks : Tracks now ((check_rate_limit j now a).1 ip) (after ip j now a h)
  unfolding check_rate_limit
  check_rate_limit-Tracks later le' = ground (
    arith,
    eq_iff j ip,
    tracks later,
    ap length (recent-recent now later (a ip) le'),
    ap length (recent-append later (recent now (a ip)) (now ∷ [])),
    length-append (recent later (recent now (a ip))) (recent later (now ∷ [])),
  )

  check_rate_limit-IsBounded : IsBounded h → IsBounded (after ip j now a h)
  unfolding check_rate_limit
  check_rate_limit-IsBounded b t =
      ground (arith, eq_iff j ip, tracks now le, b t, IsBounded-cons now h t b)

module _ (ip : String) where
  accepted_from-IsBounded :
      (requests : List (String × ℕ)) (last : ℕ) (h : List ℕ) (a : Attempts)
      → IsMonotone last requests
      → Tracks last (a ip) h
      → IsBounded h
      → IsBounded (accepted_from ip h a requests)
  accepted_from-IsBounded [] last h a m tracks b = b
  accepted_from-IsBounded ((j, now) ∷ rest) last h a (le, m) tracks b =
      accepted_from-IsBounded rest now (after ip j now a h) (check_rate_limit j now a).1 m
        (check_rate_limit-Tracks ip j last now a h le tracks)
        (check_rate_limit-IsBounded ip j last now a h le tracks b)

-- While the clock does not run backwards, at most `max_attempts` login attempts of one address are
-- let through in any window of `window` microseconds, whatever the requests of all addresses.
pub accepted_bound :
    (ip : String) (requests : List (String × ℕ)) (t : ℕ)
    → IsMonotone 0 requests
    → length (select (in_window t) (accepted ip requests)) ≤ max_attempts
accepted_bound ip requests t m =
    accepted_from-IsBounded ip requests 0 [] nothing m (λ now le. refl) (λ u. omega arith) t

-- The attempts after a run of requests.
abbrev pub attempts_after : List (String × ℕ) → Attempts → Attempts
attempts_after [] a = a
attempts_after ((j, now) ∷ rest) a = attempts_after rest (check_rate_limit j now a).1

-- Every request of `ip` among these is refused.
abbrev pub AllRefused : String → List (String × ℕ) → Attempts → Type 0
AllRefused ip [] a = Unit
AllRefused ip ((j, now) ∷ rest) a =
    (j ≡ ip → (check_rate_limit j now a).0 ≡ raise 429)
    × AllRefused ip rest (check_rate_limit j now a).1

-- Attempts that no window ending at `later` or after reaches.
abbrev IsOld : ℕ → List ℕ → Type 0
IsOld later ts = All (λ t. t + window ≤ later) ts

IsOld-recent : (later now : ℕ) (ts : List ℕ) → IsOld later ts → IsOld later (recent now ts)
IsOld-recent later now [] h = tt
IsOld-recent later now (t ∷ ts) h = ground (arith, IsOld-recent later now ts)

recent-eq-nil : (now : ℕ) (ts : List ℕ) → IsOld now ts → recent now ts ≡ []
recent-eq-nil now [] h = refl
recent-eq-nil now (t ∷ ts) h = ground (arith, recent-eq-nil now ts)

IsOld-of_le :
    (now later : ℕ) (ts : List ℕ) → now + window ≤ later → All (λ t. t ≤ now) ts → IsOld later ts
IsOld-of_le now later [] h le = tt
IsOld-of_le now later (t ∷ ts) h le = ground (arith, IsOld-of_le now later ts h)

module _ (ip j : String) (now : ℕ) (a : Attempts)
    (refused : j ≡ ip → (check_rate_limit j now a).0 ≡ raise 429) where
  refused_attempts :
      ((check_rate_limit j now a).1 ip ≡ a ip)
      ⊎ ((check_rate_limit j now a).1 ip ≡ recent now (a ip))
  unfolding check_rate_limit
  refused_attempts = ground (arith, eq_iff j ip)

  refused-IsOld : (later : ℕ) → IsOld later (a ip) → IsOld later ((check_rate_limit j now a).1 ip)
  refused-IsOld later old = elim refused_attempts [
    | inl e ↦ rw e old
    | inr e ↦ rw e (IsOld-recent later now (a ip) old)
  ]

check_rate_limit-of_IsOld :
    (ip : String) (later : ℕ) (a : Attempts)
    → IsOld later (a ip)
    → (check_rate_limit ip later a).0 ≡ ok tt
unfolding check_rate_limit
check_rate_limit-of_IsOld ip later a old = rw (recent-eq-nil later (a ip) old)

attempts_after-IsOld :
    (ip : String) (later : ℕ) (rest : List (String × ℕ)) (a : Attempts)
    → IsOld later (a ip)
    → AllRefused ip rest a
    → IsOld later (attempts_after rest a ip)
attempts_after-IsOld ip later [] a old r = old
attempts_after-IsOld ip later ((j, now) ∷ rest) a old (r, rs) =
    attempts_after-IsOld ip later rest (check_rate_limit j now a).1
      (refused-IsOld ip j now a r later old) rs

-- If the stored attempts of an address are from `now` at the latest, then one window later it is let
-- through, however many requests of this address were refused and of others handled in between.
pub accepted_again :
    (ip : String) (now later : ℕ) (a : Attempts) (between : List (String × ℕ))
    → All (λ t. t ≤ now) (a ip)
    → now + window ≤ later
    → AllRefused ip between a
    → (check_rate_limit ip later (attempts_after between a)).0 ≡ ok tt
accepted_again ip now later a between stored le refused =
    check_rate_limit-of_IsOld ip later (attempts_after between a)
      (attempts_after-IsOld ip later between a (IsOld-of_le now later (a ip) le stored) refused)
