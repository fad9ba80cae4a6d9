-- ===== src/RateLimit.antt =====
-- backend/auth.py: the limit on login attempts of one address.
pub mod Window
mod Tests
use cloudbase.Prelude.{
  ℕ, ◌-◌, ◌*◌, String, List, [], ◌∷◌, ◌++◌, leb, ltb, length, select, str_eq, if◌then◌else◌,
}
use cloudbase.Prelude.Result.{Result, ok, raise}

abbrev pub max_attempts : ℕ
max_attempts = 5

-- Times are whole microseconds.
abbrev pub window : ℕ
window = 60 * 1000000

-- `_login_attempts`, a dict that holds an empty list for a new key
abbrev pub Attempts : Type 0
Attempts = String → List ℕ

abbrev pub set_attempts : Attempts → String → List ℕ → Attempts
set_attempts a ip ts j = if str_eq ip j then ts else a j

abbrev pub recent : ℕ → List ℕ → List ℕ
recent now = select (λ t. ltb (now - t) window)

pub check_rate_limit : String → ℕ → Attempts → Result (Unit {0}) × Attempts
check_rate_limit ip now a =
    let kept = recent now (a ip) in
    if leb max_attempts (length kept)
    then (raise 429, set_attempts a ip kept)
    else (ok tt, set_attempts a ip (kept ++ now ∷ []))
