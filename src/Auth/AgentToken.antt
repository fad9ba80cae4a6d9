-- ===== src/Auth/AgentToken.antt =====
-- backend/auth.py: the token file of the local node agent.
use cloudbase.Prelude.{
  Bool-cases, inl, inr, ◌∙◌, ◌↔◌, String, ◌≡◌, refl, ◌≢◌, Bool, true, false, ◌&&◌, Option, none,
  some, arith, str_eq, eq_iff, ltb, if◌then◌else◌, strip,
}
use Prim.Native.Char.{code}
use Prim.Native.String.{[], ◌∷◌}

unfoldable pub is_ascii : String → Bool
is_ascii [] = true
is_ascii (c ∷ s) = ltb (code c) 128 && is_ascii s

-- `secrets.compare_digest` on texts; it raises on others than ASCII.
compare_digest : String → String → Option Bool
unfolding is_ascii
compare_digest a b = if is_ascii a && is_ascii b then some (str_eq a b) else none

-- The file holds a text or does not exist, and `fresh` is what `secrets.token_hex` returns.
-- The result is the token and the file.
unfoldable pub get_or_create_agent_token : String → Option String → String × Option String
get_or_create_agent_token fresh none = (fresh, some fresh)
get_or_create_agent_token fresh (some stored) =
    if str_eq (strip stored) "" then (fresh, some fresh) else (strip stored, some stored)

or_false : Option Bool → Bool
or_false none = false
or_false (some b) = b

unfoldable pub verify_agent_token : Option String → String → Bool
unfolding compare_digest or_false
verify_agent_token none token = false
verify_agent_token (some stored) token =
    if str_eq token "" then false else or_false (compare_digest token (strip stored))

is_ascii-compare : (s : String) → is_ascii s ≡ true → compare_digest s s ≡ some true
unfolding compare_digest
is_ascii-compare s h = rw (h, (eq_iff s s).1 refl)

-- A text that is verified is the one that the file holds.
verified-stored :
    (stored token : String) → verify_agent_token (some stored) token ≡ true → token ≡ strip stored
unfolding verify_agent_token compare_digest or_false
verified-stored stored token h = ground (arith, eq_iff token (strip stored))

-- The token that `get_or_create_agent_token` returns is the one that it returns from then on,
-- whatever the next fresh text; it is not empty, and if it is ASCII, `verify_agent_token` takes it and
-- no other text. The fresh text is taken to be not empty and without surrounding white space.
pub agent_token_stable :
    (fresh : String) (file : Option String) (next : String)
    → fresh ≢ ""
    → strip fresh ≡ fresh
    → is_ascii (get_or_create_agent_token fresh file).0 ≡ true
    → (get_or_create_agent_token next (get_or_create_agent_token fresh file).1
        ≡ get_or_create_agent_token fresh file)
      × ((get_or_create_agent_token fresh file).0 ≢ "")
      × ((token : String)
          → (verify_agent_token (get_or_create_agent_token fresh file).1 token ≡ true)
            ↔ (token ≡ (get_or_create_agent_token fresh file).0))
unfolding get_or_create_agent_token verify_agent_token
agent_token_stable fresh none next some_text trimmed ascii = (
  ground (arith, eq_iff fresh ""),
  some_text,
  λ token. (
    λ h. verified-stored fresh token h ∙ trimmed,
    λ h. rw h (ground (arith, eq_iff fresh "", is_ascii-compare fresh)),
  ),
)
agent_token_stable fresh (some stored) next some_text trimmed ascii =
    elim (Bool-cases (str_eq (strip stored) "")) [
      | inl e ↦ rw e (
        ground (arith, eq_iff fresh ""),
        some_text,
        λ token. (
          λ h. verified-stored fresh token h ∙ trimmed,
          λ h. rw h (ground (arith, eq_iff fresh "", is_ascii-compare fresh)),
        ),
      )
      | inr e ↦ rw e (
        rw e refl,
        ground (arith, eq_iff (strip stored) ""),
        λ token. (
          λ h. verified-stored stored token h,
          λ h. rw h (ground (arith, eq_iff (strip stored) "", is_ascii-compare (strip stored))),
        ),
      )
    ]
