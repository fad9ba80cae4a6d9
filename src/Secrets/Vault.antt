-- ===== src/Secrets/Vault.antt =====
-- backend/token_vault.py: the file of saved tokens.
pub mod Kept
use cloudbase.Prelude.{
  ℕ, zero, suc, ◌+◌, ◌-◌, ◌*◌, ◌≤◌, ◌<◌, min, max, String, ◌≡◌, refl, sym, ap, ◌∙◌, ◌≢◌, ◌↔◌, ◌⊎◌,
  inl, inr, Bool, true, false, not, ◌&&◌, ◌||◌, Option, none, some, List, [], ◌∷◌, ◌++◌, map, arith,
  str_eq, eq_iff, ltb, leb, ◌==◌, ==_iff, if◌then◌else◌, Bool-cases, Option-cases, some-eq, is_some,
  is_some-none, All, length, select, find, any, all, update_where, count_where, length-append, take,
  order_by, find-holds, has_text, starts_with, contains, lower, ends_with, text_length, strip,
  starts_with_comparable, starts_with_apart, starts_with_shorter, starts_with_of_eq, eq_apart,
}
use cloudbase.Prelude.Result.{
  Result, ok, raise, ◌>>=◌, ◌>>◌, raise_if, is_ok, bind-ok, raise_if-ok, Result-cases,
}
use cloudbase.Secrets.{Cipher, encrypt_text, decrypt_text, encrypt-filled}

-- An entry of the file. What a file lacks of an entry is the empty text.
pub record Token : Type 0 where
  pub id : String
  pub label : String
  pub token : String

-- A file that does not exist, one that is not readable, or its entries.
pub data File : Type 0 where
  missing : File
  broken : File
  holds : List Token → File

pub record Vault : Type 0 where
  pub file : File
  pub legacy : File

module _ {Env : Type 0} (cipher : Cipher Env) where
  -- A token of an older version is stored as it is, and is encrypted when it is read.
  abbrev pub is_plain : Token → Bool
  unfolding decrypt_text
  is_plain t = str_eq (decrypt_text cipher t.token true) t.token

  abbrev pub normal_token : String → Token → Token
  normal_token fresh t = record t {
    id = if str_eq t.id "" then fresh else t.id;
    token =
        if is_plain t
        then encrypt_text cipher (some (decrypt_text cipher t.token true))
        else t.token;
  }

  -- The loop of `load`; `fresh` are random ids for the entries without one.
  pub normalized : (ℕ → String) → List Token → List Token
  normalized fresh [] = []
  normalized fresh (t ∷ ts) =
      let rest = normalized (λ n. fresh (suc n)) ts in
      if str_eq t.token "" then rest else normal_token (fresh 0) t ∷ rest

  abbrev pub migrated : List Token → Bool
  migrated ts = any (λ t. not (str_eq t.token "") && is_plain t) ts

  -- `load`
  unfoldable pub load : (ℕ → String) → Vault → List Token × Vault
  unfolding normalized
  load fresh v = elim v.file [
    | missing ↦ elim v.legacy [
      | holds ts ↦ (ts, record { file = holds ts; legacy = missing })
      | missing ↦ ([], v)
      | broken ↦ ([], v)
    ]
    | broken ↦ ([], v)
    | holds ts ↦
        let read = normalized fresh ts in
        (read, if migrated ts then record v { file = holds read } else v)
  ]

  abbrev pub raw_token : Token → Option String
  raw_token t = if str_eq t.token "" then none else some (decrypt_text cipher t.token true)

  -- `resolve`
  unfoldable pub resolve : (ℕ → String) → String → Vault → Option String × Vault
  unfolding load
  resolve fresh token_id v =
      let (ts, v') = load fresh v in
      (elim (find (λ t. str_eq t.id token_id) ts) [ none ↦ none | some t ↦ raw_token t ], v')

  -- The first entry with the label gets the token, or a new one is added.
  pub put_token : String → String → String → List Token → List Token
  put_token fresh label encrypted [] = record { id = fresh; label = label; token = encrypted } ∷ []
  put_token fresh label encrypted (t ∷ ts) =
      let rest = put_token fresh label encrypted ts in
      if str_eq t.label label then record t { token = encrypted } ∷ ts else t ∷ rest

  -- `add`; `new_id` is the random id of a new entry.
  unfoldable pub add : (ℕ → String) → String → String → String → Vault → Vault
  unfolding load put_token
  add fresh new_id label token v =
      let (ts, v') = load fresh v in
      record v' { file = holds (put_token new_id label (encrypt_text cipher (some token)) ts) }

  -- `remove`
  unfoldable pub remove : (ℕ → String) → String → Vault → Vault
  unfolding load
  remove fresh token_id v =
      let (ts, v') = load fresh v in
      record v' { file = holds (select (λ t. not (str_eq t.id token_id)) ts) }

  -- What a label reads as: the raw token of its first entry.
  abbrev pub secret : String → List Token → Option String
  secret label ts = elim (find (λ t. str_eq t.label label) ts) [
    | none ↦ none
    | some t ↦ some (decrypt_text cipher t.token true)
  ]

  abbrev pub entries : Vault → List Token
  entries v = elim v.file [ missing ↦ [] | broken ↦ [] | holds ts ↦ ts ]
