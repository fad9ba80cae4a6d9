-- ===== src/RateLimit/Tests.antt =====
-- Runs of the limiter.
use cloudbase.Prelude.{ℕ, ◌≤◌, ◌≡◌, refl, eq_iff, String, List, [], ◌∷◌, arith, length, select}
use cloudbase.Prelude.Result.{ok}
use cloudbase.RateLimit.{max_attempts, Attempts, check_rate_limit}
use cloudbase.RateLimit.Window.{
  accepted, in_window, accepted_bound, accepted_again, attempts_after, nothing,
}

abbrev burst : List (String × ℕ)
burst = ("a", 1) ∷ ("a", 2) ∷ ("b", 3) ∷ ("a", 4) ∷ ("a", 5) ∷ ("a", 6) ∷ ("a", 7) ∷ []

run_of_burst : accepted "a" burst ≡ 6 ∷ 5 ∷ 4 ∷ 2 ∷ 1 ∷ []
unfolding check_rate_limit
run_of_burst = refl

accepted_bound_example : length (select (in_window 7) (accepted "a" burst)) ≤ max_attempts
accepted_bound_example = accepted_bound "a" burst 7 (omega arith)

abbrev full : Attempts
full = attempts_after burst nothing

accepted_again_example :
    (check_rate_limit "a" 60000007 (attempts_after (("a", 8) ∷ ("b", 9) ∷ []) full)).0 ≡ ok tt
unfolding check_rate_limit
accepted_again_example =
    accepted_again "a" 7 60000007 full (("a", 8) ∷ ("b", 9) ∷ []) (omega arith) (omega arith)
      ((λ e. refl), (λ e. cc ((eq_iff "b" "a").1 e), tt))
