-- ===== src/Prelude/Result.antt =====
-- A handler's result: a value, or an `HTTPException` with its status code.
use mathlib.Core.Bool.{Bool, true, false}
use Prim.Native.Nat.{ℕ}
use mathlib.Core.Path.{◌≡◌, refl}
use mathlib.Core.Logic.{◌⊎◌, inl, inr}

pub data Result {ℓ} (A : Type ℓ) : Type ℓ where
  raise : (code : ℕ) → Result A
  ok : (value : A) → Result A

abbrev pub is_ok {ℓ} : {A : Type ℓ} → Result A → Bool
is_ok (raise code) = false
is_ok (ok value) = true

infixl 5 ◌>>=◌
-- A raised error skips what follows.
abbrev pub ◌>>=◌ {ℓ ℓ'} :
    {A : Type ℓ} {B : Type ℓ'} (result : Result A) (next : A → Result B) → Result B
raise code >>= next = raise code
ok value >>= next = next value

-- `if test: raise HTTPException(code)`
abbrev pub raise_if : (test : Bool) (code : ℕ) → Result (Unit {0})
raise_if false code = ok tt
raise_if true code = raise code

infixl 5 ◌>>◌
abbrev pub ◌>>◌ {ℓ} : {A : Type ℓ} (check : Result (Unit {0})) (next : Result A) → Result A
check >> next = check >>= λ passed. next

-- A chain that returns went through each of its steps.
pub bind-ok {ℓ ℓ'} :
    {A : Type ℓ} {B : Type ℓ'} (result : Result A) (next : A → Result B) {end : B}
    → (result >>= next) ≡ ok end
    → (value : A) × (result ≡ ok value) × (next value ≡ ok end)
bind-ok (raise code) next e = cc
bind-ok (ok value) next e = (value, refl, e)

pub raise_if-ok : (test : Bool) (code : ℕ) {u : Unit {0}} → raise_if test code ≡ ok u → test ≡ false
raise_if-ok false code e = refl
raise_if-ok true code e = cc

pub Result-cases {ℓ} :
    {A : Type ℓ} (r : Result A) → ((code : ℕ) × (r ≡ raise code)) ⊎ ((a : A) × (r ≡ ok a))
Result-cases (raise code) = inl (code, refl)
Result-cases (ok a) = inr (a, refl)
