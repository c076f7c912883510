-- ===== src/Databaseinit/Passwords.antt =====
-- resolveDatabasePassword and resolveMasterPassword of cmd/bootstrap/main.go. `random` is what the
-- generator returns: 32 random bytes, encoded, or an error.
use accountable.Prelude.{
  String, ◌≡◌, ◌⊎◌, Option, none, some, [], ◌∷◌, Result, ok, err, ◌>>=◌, arith, Result-cases,
  Option-cases, inl, inr,
}
use accountable.Bytes.{Bytes}
use accountable.Maps.{lookup}
use accountable.Secret.File.{Disk, new_file_secret_source}
use accountable.Secret.File
use accountable.Secret.Infisical.{ApiError, failed, StoreApi, first, resolve_or_create_batch}
use accountable.Secret.Infisical.Laws.{Reflects}
use accountable.Secret.Infisical.Rerun.{
  resolve_or_create_batch-Keeps, resolve_or_create_batch_sound,
}

abbrev pub password_ref : String
password_ref = "database-password"

abbrev pub master_password_ref : String
master_password_ref = "database-master-password"

abbrev pub master_secret_directory : String
master_secret_directory = "/run/accountable/secrets"

abbrev pub present : Option Bytes → Result ApiError Bytes
present none = err (failed "database credential is missing")
present (some value) = ok value

unfoldable pub resolve_database_password :
    {S : Type 0} → StoreApi S → Result ApiError Bytes → S → Result ApiError Bytes × S
resolve_database_password api random s =
    first (λ values. values >>= λ values. present (lookup password_ref values))
      (resolve_or_create_batch api (password_ref ∷ []) (some (λ _. random)) s)

-- values[masterPasswordRef], the empty value where it is missing
abbrev pub value_or_empty : Option Bytes → Bytes
value_or_empty none = []
value_or_empty (some value) = value

unfoldable pub resolve_master_password : Disk → Result String Bytes
resolve_master_password disk = do
  source ← new_file_secret_source disk master_secret_directory
  values ← File.resolve_batch disk source (master_password_ref ∷ [])
  ok (value_or_empty (lookup master_password_ref values))

-- A database password that is returned is the one that the secret store then holds, and it is the
-- one that the store held before, if it held one.
pub resolve_database_password_sound :
    {S : Type 0} (api : StoreApi S) (held : S → String → Option Bytes)
    → Reflects api held
    → (random : Result ApiError Bytes) (s : S) (password : Bytes)
    → (resolve_database_password api random s).0 ≡ ok password
    → (held (resolve_database_password api random s).1 password_ref ≡ some password)
      × ((held s password_ref ≡ none) ⊎ (held s password_ref ≡ some password))
unfolding resolve_database_password
resolve_database_password_sound api held law random s password h =
    let batch = resolve_or_create_batch api (password_ref ∷ []) (some (λ _. random)) s in
    elim (Result-cases batch.0) [
      | inr (e, b) ↦ absurd (ground arith)
      | inl (values, b) ↦
          let (_, agrees) =
            resolve_or_create_batch_sound api held law (password_ref ∷ []) (some (λ _. random)) s
              values b in
          let found : lookup password_ref values ≡ some password = ground arith in
          let now = agrees password_ref password found in
          (
            now,
            elim (Option-cases (held s password_ref)) [
              | inl absent ↦ inl absent
              | inr (earlier, e) ↦
                  let kept =
                    resolve_or_create_batch-Keeps api held law (password_ref ∷ [])
                      (some (λ _. random)) s password_ref earlier e in
                  inr (ground arith)
            ],
          )
    ]
