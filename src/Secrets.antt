-- ===== src/Secrets.antt =====
-- backend/env_crypto.py and backend/token_vault.py: variables and tokens that are stored encrypted.
pub mod Vault
mod Sample
mod Tests
use cloudbase.Prelude.{
  ℕ, zero, suc, ◌+◌, ◌-◌, ◌*◌, ◌≤◌, ◌<◌, min, max, String, ◌≡◌, refl, sym, ap, ◌∙◌, ◌≢◌, ◌↔◌, ◌⊎◌,
  inl, inr, Bool, true, false, not, ◌&&◌, ◌||◌, Option, none, some, List, [], ◌∷◌, ◌++◌, map, arith,
  str_eq, eq_iff, ltb, leb, ◌==◌, ==_iff, if◌then◌else◌, Bool-cases, Option-cases, some-eq, is_some,
  is_some-none, All, length, select, find, any, all, update_where, count_where, length-append, take,
  order_by, find-holds, has_text, starts_with, contains, lower, ends_with, text_length, strip,
  starts_with_comparable, starts_with_apart, starts_with_shorter, starts_with_of_eq, eq_apart,
}
use cloudbase.Prelude.Result.{
  Result, ok, raise, ◌>>=◌, ◌>>◌, raise_if, is_ok, bind-ok, raise_if-ok, Result-cases,
}

-- The package `cryptography.fernet` with the key of this host, and `json` on the variables: they are
-- read back as they were written, and an encrypted text is longer than the text. `Env` is the type of
-- the dicts of variables.
pub record Cipher (Env : Type 0) : Type 0 where
  pub encrypt : String → String
  pub decrypt : String → Option String
  pub no_env : Env
  pub dumps : Env → String
  pub loads : String → Option (Env)
  pub decrypt-encrypt : (s : String) → decrypt (encrypt s) ≡ some s
  pub loads-dumps : (env : Env) → loads (dumps env) ≡ some env
  pub encrypt_longer : (s : String) → text_length s < text_length (encrypt s)

module _ {Env : Type 0} (cipher : Cipher Env) where
  -- `encrypt_env`
  abbrev pub encrypt_env : Env → String
  encrypt_env env = cipher.encrypt (cipher.dumps env)

  -- `encrypt_text`, of a value that may be `None`.
  abbrev pub encrypt_text : Option String → String
  encrypt_text none = ""
  encrypt_text (some value) = cipher.encrypt value

  -- A text that no cipher wrote: variables that were stored before they were encrypted.
  abbrev pub plain_env : String → Env
  plain_env ciphertext = elim (cipher.loads ciphertext) [ none ↦ cipher.no_env | some env ↦ env ]

  abbrev pub loads_or_plain : String → Option String → Env
  loads_or_plain ciphertext none = plain_env ciphertext
  loads_or_plain ciphertext (some text) = elim (cipher.loads text) [
    | none ↦ plain_env ciphertext
    | some env ↦ env
  ]

  -- `decrypt_env`
  unfoldable pub decrypt_env : String → Env
  decrypt_env ciphertext =
      if str_eq ciphertext ""
      then cipher.no_env
      else loads_or_plain ciphertext (cipher.decrypt ciphertext)

  -- `decrypt_text`
  unfoldable pub decrypt_text : String → Bool → String
  decrypt_text ciphertext fallback =
      if str_eq ciphertext "" then "" else elim (cipher.decrypt ciphertext) [
        | some text ↦ text
        | none ↦ if fallback then ciphertext else ""
      ]

  pub encrypt-filled : (s : String) → str_eq (cipher.encrypt s) "" ≡ false
  encrypt-filled s = elim (Bool-cases (str_eq (cipher.encrypt s) "")) [
    | inl e ↦
        let short = ap text_length ((eq_iff (cipher.encrypt s) "").0 e) in
        absurd (omega (arith, cipher.encrypt_longer s, short))
    | inr e ↦ e
  ]

  -- A text that was encrypted is read back.
  pub decrypt_text-encrypt_text :
      (value : String) (fallback : Bool) → decrypt_text (encrypt_text (some value)) fallback ≡ value
  unfolding decrypt_text
  decrypt_text-encrypt_text value fallback =
      rw (decrypt_text, encrypt-filled value, cipher.decrypt-encrypt) refl
