-- ===== src/Secrets/Vault/Kept.antt =====
-- What a label reads as after a token was saved.
use cloudbase.Prelude.{
  ℕ, suc, String, ◌≡◌, refl, sym, ap, ◌∙◌, ◌≢◌, inl, inr, true, false, some, List, [], ◌∷◌, arith,
  str_eq, eq_iff, Bool-cases, All, text_length,
}
use cloudbase.Secrets.{Cipher, encrypt_text, decrypt_text, decrypt_text-encrypt_text}
use cloudbase.Secrets.Vault.{
  Token, File, holds, is_plain, normal_token, normalized, put_token, add, secret, entries,
}

module _ {Env : Type 0} (cipher : Cipher Env) where
  read_back : (s : String) → decrypt_text cipher (encrypt_text cipher (some s)) true ≡ s
  read_back s = decrypt_text-encrypt_text cipher s true

  -- An entry reads as before when it is encrypted.
  normal_token-reads :
      (fresh : String) (t : Token)
      → decrypt_text cipher (normal_token cipher fresh t).token true
        ≡ decrypt_text cipher t.token true
  normal_token-reads fresh t = elim (Bool-cases (is_plain cipher t)) [
    | inl e ↦ rw e (read_back (decrypt_text cipher t.token true))
    | inr e ↦ rw e refl
  ]

  -- What was encrypted is not a text as it is.
  encrypted-plain :
      (id label s : String)
      → is_plain cipher (record { id = id; label = label; token = encrypt_text cipher (some s) })
        ≡ false
  unfolding is_plain
  encrypted-plain id label s = elim (Bool-cases (str_eq s (cipher.encrypt s))) [
    | inl e ↦
        let same = ap text_length ((eq_iff s (cipher.encrypt s)).0 e) in
        absurd (omega (arith, cipher.encrypt_longer s, same))
    | inr e ↦ rw (is_plain, read_back s) e
  ]

  -- Only the stored text of an entry decides.
  is_plain-token : (t t' : Token) → t.token ≡ t'.token → is_plain cipher t ≡ is_plain cipher t'
  unfolding is_plain
  is_plain-token t t' e = ap (λ x. str_eq (decrypt_text cipher x true) x) e

  normal_token-plain :
      (fresh : String) (t : Token) → is_plain cipher (normal_token cipher fresh t) ≡ false
  normal_token-plain fresh t = elim (Bool-cases (is_plain cipher t)) [
    | inl e ↦
        let raw = decrypt_text cipher t.token true in
        let new : Token = record { id = ""; label = ""; token = encrypt_text cipher (some raw) } in
        let stored : (normal_token cipher fresh t).token ≡ new.token = rw e refl in
        is_plain-token (normal_token cipher fresh t) new stored ∙ encrypted-plain "" "" raw
    | inr e ↦
        let stored : (normal_token cipher fresh t).token ≡ t.token = rw e refl in
        is_plain-token (normal_token cipher fresh t) t stored ∙ e
  ]

  secret-here :
      (label : String) (t : Token) (ts : List Token)
      → str_eq t.label label ≡ true
      → secret cipher label (t ∷ ts) ≡ some (decrypt_text cipher t.token true)
  secret-here label t ts e = rw (secret, e) refl

  secret-there :
      (label : String) (t : Token) (ts : List Token)
      → str_eq t.label label ≡ false
      → secret cipher label (t ∷ ts) ≡ secret cipher label ts
  secret-there label t ts e = rw (secret, e) refl

  abbrev Filled : Token → Type 0
  Filled t = str_eq t.token "" ≡ false

  normalized-secret :
      (fresh : ℕ → String) (ts : List Token) (label : String)
      → All Filled ts
      → secret cipher label (normalized cipher fresh ts) ≡ secret cipher label ts
  unfolding normalized
  normalized-secret fresh [] label h = refl
  normalized-secret fresh (t ∷ ts) label (h, hs) =
      let rest = normalized-secret (λ n. fresh (suc n)) ts label hs in
      let t' = normal_token cipher (fresh 0) t in
      let ts' = normalized cipher (λ n. fresh (suc n)) ts in
      let read : normalized cipher fresh (t ∷ ts) ≡ t' ∷ ts' = rw h refl in
      ap (secret cipher label) read ∙ elim (Bool-cases (str_eq t.label label)) [
        | inl e ↦
            secret-here label t' ts' e
            ∙ ap some (normal_token-reads (fresh 0) t)
            ∙ sym (secret-here label t ts e)
        | inr e ↦ secret-there label t' ts' e ∙ rest ∙ sym (secret-there label t ts e)
      ]

  normalized-plain :
      (fresh : ℕ → String) (ts : List Token)
      → All (λ t. is_plain cipher t ≡ false) (normalized cipher fresh ts)
  unfolding normalized
  normalized-plain fresh [] = tt
  normalized-plain fresh (t ∷ ts) =
      let rest = normalized-plain (λ n. fresh (suc n)) ts in
      elim (Bool-cases (str_eq t.token "")) [
        | inl e ↦ rw e rest
        | inr e ↦ rw e (normal_token-plain (fresh 0) t, rest)
      ]

  module _ (new_id label token : String) where
    abbrev put : List Token → List Token
    put ts = put_token cipher new_id label (encrypt_text cipher (some token)) ts

    abbrev fresh_token : Token
    fresh_token = record { id = new_id; label = label; token = encrypt_text cipher (some token) }

    abbrev changed : Token → Token
    changed t = record t { token = encrypt_text cipher (some token) }

    put-here :
        (t : Token) (ts : List Token) → str_eq t.label label ≡ true → put (t ∷ ts) ≡ changed t ∷ ts
    unfolding put_token
    put-here t ts e = rw e refl

    put-there :
        (t : Token) (ts : List Token) → str_eq t.label label ≡ false → put (t ∷ ts) ≡ t ∷ put ts
    unfolding put_token
    put-there t ts e = rw e refl

    put_token-secret : (ts : List Token) → secret cipher label (put ts) ≡ some token
    unfolding put_token
    put_token-secret [] =
        secret-here label fresh_token [] ((eq_iff label label).1 refl) ∙ ap some (read_back token)
    put_token-secret (t ∷ ts) = elim (Bool-cases (str_eq t.label label)) [
      | inl e ↦
          ap (secret cipher label) (put-here t ts e)
          ∙ secret-here label (changed t) ts e
          ∙ ap some (read_back token)
      | inr e ↦
          ap (secret cipher label) (put-there t ts e)
          ∙ secret-there label t (put ts) e
          ∙ put_token-secret ts
    ]

    put_token-other :
        (other : String) (ts : List Token)
        → other ≢ label
        → secret cipher other (put ts) ≡ secret cipher other ts
    unfolding put_token
    put_token-other other [] ne =
        secret-there other fresh_token [] (ground (arith, eq_iff label other))
    put_token-other other (t ∷ ts) ne = elim (Bool-cases (str_eq t.label label)) [
      | inl e ↦
          let apart : str_eq t.label other ≡ false =
            ground (arith, eq_iff t.label label, eq_iff t.label other) in
          ap (secret cipher other) (put-here t ts e)
          ∙ secret-there other (changed t) ts apart
          ∙ sym (secret-there other t ts apart)
      | inr e ↦
          let rest = put_token-other other ts ne in
          ap (secret cipher other) (put-there t ts e) ∙ elim (Bool-cases (str_eq t.label other)) [
            | inl h ↦ secret-here other t (put ts) h ∙ sym (secret-here other t ts h)
            | inr h ↦ secret-there other t (put ts) h ∙ rest ∙ sym (secret-there other t ts h)
          ]
    ]

    put_token-plain :
        (ts : List Token)
        → All (λ t. is_plain cipher t ≡ false) ts
        → All (λ t. is_plain cipher t ≡ false) (put ts)
    unfolding put_token
    put_token-plain [] h = (encrypted-plain new_id label token, tt)
    put_token-plain (t ∷ ts) (h, hs) = elim (Bool-cases (str_eq t.label label)) [
      | inl e ↦ rw e (encrypted-plain t.id t.label token, hs)
      | inr e ↦ rw e (h, put_token-plain ts hs)
    ]

-- Where the file of tokens exists and none of its tokens is empty: a token that is saved under a label
-- reads back, every other label reads as before, whether the tokens of the file were encrypted or not,
-- and afterwards no entry holds its token as it is.
pub add-secret :
    {Env : Type 0} (cipher : Cipher Env) (fresh : ℕ → String) (new_id label token : String)
    (ts : List Token) (legacy : File)
    → All (λ t. str_eq t.token "" ≡ false) ts
    → (let after =
          entries cipher
            (add cipher fresh new_id label token (record { file = holds ts; legacy = legacy })) in
        (secret cipher label after ≡ some token)
        × ((other : String) → other ≢ label → secret cipher other after ≡ secret cipher other ts)
        × All (λ t. is_plain cipher t ≡ false) after)
unfolding add
add-secret cipher fresh new_id label token ts legacy filled =
    let read = normalized cipher fresh ts in
    (
      put_token-secret cipher new_id label token read,
      λ other ne.
          put_token-other cipher new_id label token other read ne
          ∙ normalized-secret cipher fresh ts other filled,
      put_token-plain cipher new_id label token read (normalized-plain cipher fresh ts),
    )
