-- ===== src/Secrets/Tests.antt =====
-- Runs with a cipher that marks what it encrypts.
use cloudbase.Prelude.{String, ◌≡◌, refl, ◌≢◌, false, some, [], ◌∷◌, All}
use cloudbase.Secrets.{decrypt_text}
use cloudbase.Secrets.Sample.{marking}
use cloudbase.Secrets.Vault.{Token, holds, missing, Vault, is_plain, add, resolve, secret, entries}
use cloudbase.Secrets.Vault.Kept.{add-secret}

abbrev old_token : Token
old_token = record { id = ""; label = "ci"; token = "plain" }

abbrev saved : Vault
saved =
    add marking (λ n. "id") "new" "main" "ghp"
      (record { file = holds (old_token ∷ []); legacy = missing })

-- The old token got an id and was encrypted, the new one is found by its id.
resolved-eq : (resolve marking (λ n. "x") "new" saved).0 ≡ some "ghp"
unfolding resolve add decrypt_text
resolved-eq = refl

add-secret_example :
    (secret marking "main" (entries marking saved) ≡ some "ghp")
    × ((other : String)
        → other ≢ "main"
        → secret marking other (entries marking saved) ≡ secret marking other (old_token ∷ []))
    × All (λ t. is_plain marking t ≡ false) (entries marking saved)
add-secret_example =
    add-secret marking (λ n. "id") "new" "main" "ghp" (old_token ∷ []) missing (refl, tt)
