-- ===== src/Auth/Sample.antt =====
-- Data for the tests: a token package whose tokens hold their payload, and some accounts.
use cloudbase.Prelude.{
  ℕ, ◌≤◌, ◌<◌, String, ◌≡◌, refl, not, Option, none, some, [], ◌∷◌, arith, leb, if◌then◌else◌,
  is_some,
}
use cloudbase.Auth.{Jwt, Payload}
use cloudbase.Accounts.{Accounts, Role, User}

abbrev at_time : ℕ → Payload → Option ℕ → Option Payload
at_time now p none = some p
at_time now p (some exp) = if leb now exp then some p else none

abbrev plain_decode : ℕ → Option Payload → Option Payload
plain_decode now none = none
plain_decode now (some p) = at_time now p p.exp

pub plain-decode-encode :
    (p : Payload) (exp now : ℕ) → p.exp ≡ some exp → now ≤ exp → plain_decode now (some p) ≡ some p
plain-decode-encode p exp now e le = ground arith

pub plain_expired :
    (p : Payload) (exp now : ℕ) → p.exp ≡ some exp → exp < now → plain_decode now (some p) ≡ none
plain_expired p exp now e lt = ground arith

abbrev pub plain_jwt : Jwt
plain_jwt = record {
  Token = Option Payload;
  is_empty = λ t. not (is_some t);
  encode = some;
  decode = plain_decode;
  encode_nonempty = λ p. refl;
  decode-encode = plain-decode-encode;
  decode_expired = plain_expired;
}

abbrev pub root_user : User
root_user = record {
  id = 1;
  username = "admin";
  password_hash = "h1";
  role = "admin";
  role_id = none;
}

abbrev pub eve : User
eve = record { id = 2; username = "eve"; password_hash = "h2"; role = "Operator"; role_id = some 7 }

abbrev pub operator : Role
operator = record { id = 7; name = "Operator"; description = none }

abbrev pub sample_accounts : Accounts
sample_accounts = record {
  permissions =
      record { id = 1; name = "apps.view"; description = none }
      ∷ record { id = 2; name = "apps.manage"; description = none }
      ∷ [];
  roles = operator ∷ [];
  users = root_user ∷ eve ∷ [];
  role_permissions = (7, 2) ∷ [];
  credentials = some "h1";
  audit_log = [];
}

-- A cookie of a session that ends at second 100.
abbrev pub cookie_of : String → Option (Option Payload)
cookie_of username =
    some (some (record { sub = some username; role = none; exp = some 100; iat = some 40 }))
