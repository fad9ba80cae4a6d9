-- ===== src/Apps/Work/Post.antt =====
-- What holds of a handler's end: one condition on what it returns, one on what an error leaves behind.
use cloudbase.Prelude.{ℕ, ◌≡◌, ap, inl, inr, Bool, true, Bool-cases}
use cloudbase.Prelude.Result.{Result, ok, raise}
use cloudbase.Apps.Work.{Work, Tx, ◌>>=◌, when}

abbrev pub Post : {A : Type 0} → (A → Work → Type 0) → (Work → Type 0) → Result A × Work → Type 0
Post Q E (ok a, w) = Q a w
Post Q E (raise code, w) = E w

-- Both ends under one condition on the work.
abbrev pub Kept : {A : Type 0} → (Work → Type 0) → Result A × Work → Type 0
Kept I = Post (λ a w. I w) I

module _ {A B : Type 0} (Q : A → Work → Type 0) (R : B → Work → Type 0) (E : Work → Type 0) where
  Post-next :
      (end : Result A × Work) (next : A → Tx B)
      → Post Q E end
      → ((a : A) (w : Work) → Q a w → Post R E (next a w))
      → Post R E (let (r, w) = end in elim r [ raise code ↦ (raise code, w) | ok a ↦ next a w ])
  Post-next (ok a, w) next h step = step a w h
  Post-next (raise code, w) next h step = h

  -- A step and what follows it.
  pub Post-bind :
      (first : Tx A) (next : A → Tx B) (w : Work)
      → Post Q E (first w)
      → ((a : A) (w' : Work) → Q a w' → Post R E (next a w'))
      → Post R E ((first >>= next) w)
  Post-bind first next w h step = Post-next (first w) next h step

-- A step that returns is followed by the next one.
pub step-returns :
    {A B : Type 0} (first : Tx A) (next : A → Tx B) (w w' : Work) (a : A)
    → first w ≡ (ok a, w')
    → (first >>= next) w ≡ next a w'
step-returns first next w w' a e =
    ap (λ end. let (r, v) = end in elim r [ raise code ↦ (raise code, v) | ok x ↦ next x v ]) e

pub step-raises :
    {A B : Type 0} (first : Tx A) (next : A → Tx B) (w w' : Work) (code : ℕ)
    → first w ≡ (raise code, w')
    → (first >>= next) w ≡ (raise code, w')
step-raises first next w w' code e =
    ap (λ end. let (r, v) = end in elim r [ raise c ↦ (raise c, v) | ok x ↦ next x v ]) e

module _ {A : Type 0} (Q R : A → Work → Type 0) (E E' : Work → Type 0) where
  pub Post-of :
      (end : Result A × Work)
      → ((a : A) (w : Work) → Q a w → R a w)
      → ((w : Work) → E w → E' w)
      → Post Q E end
      → Post R E' end
  Post-of (ok a, w) step fails h = step a w h
  Post-of (raise code, w) step fails h = fails w h

module _ (I : Work → Type 0) where
  pub when-Kept :
      (test : Bool) (step : Tx (Unit {0})) (w : Work)
      → I w
      → (test ≡ true → Kept I (step w))
      → Kept I (when test step w)
  when-Kept test step w h keep = elim (Bool-cases test) [ inl e ↦ rw e (keep e) | inr e ↦ rw e h ]

pub Post-ok :
    {A : Type 0} (Q : A → Work → Type 0) (E : Work → Type 0) (end : Result A × Work) (a : A)
    (w : Work)
    → Post Q E end
    → end ≡ (ok a, w)
    → Q a w
Post-ok Q E end a w h e = rw e at h

pub Post-left : {A : Type 0} (I : Work → Type 0) (end : Result A × Work) → Kept I end → I end.1
Post-left I (ok a, w) h = h
Post-left I (raise code, w) h = h
