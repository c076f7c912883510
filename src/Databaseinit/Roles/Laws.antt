-- ===== src/Databaseinit/Roles/Laws.antt =====
-- What the initialisation of a database does to its roles.
use mathlib.Core.List.{append-nil, append_assoc}
use accountable.Prelude.{
  String, true, ◌≡◌, ◌≢◌, refl, sym, ap, ◌∙◌, some, List, [], ◌∷◌, ◌++◌, ok, err, is_ok, arith,
  eq_iff, eq_refl, Bool-cases, Result-cases, ◌⊎◌, inl, inr,
}
use accountable.Bytes.{Bytes}
use accountable.Maps.{lookup, member, lookup-insert, member-add}
use accountable.Databaseinit.Roles.{
  RoleState, Connection, Outcome, otherwise, create_role, ensure_login_role, grants, execute_all,
  initialise_database, api_role, migrate_role,
}

-- A role that may log in with a password.
pub record LogsIn (role : String) (password : Bytes) (s : RoleState) : Type 0 where
  pub exists : member role s.roles ≡ true
  pub authenticates : lookup role s.passwords ≡ some password

-- What holds after either outcome of a call holds of the call followed by the rest.
otherwise_lem :
    (P : Outcome → Type 0) (e : String) (outcome : Outcome) (next : RoleState → Outcome)
    → P (err e, outcome.1)
    → (is_ok outcome.0 ≡ true → P (next outcome.1))
    → P (otherwise e outcome next)
otherwise_lem P e (err _, s) next failed passed = failed
otherwise_lem P e (ok _, s) next failed passed = passed refl

module _ (connection : Connection) where
  ensure_login_role-LogsIn :
      (role : String) (password : Bytes) (s : RoleState)
      → is_ok (ensure_login_role connection role password s).0 ≡ true
      → LogsIn role password (ensure_login_role connection role password s).1
  unfolding ensure_login_role create_role
  ensure_login_role-LogsIn role password s h = record {
    exists = ground (arith, member-add role role s.roles, eq_refl role);
    authenticates = ground (arith, lookup-insert role role password s.passwords, eq_refl role);
  }

  -- What happens to another role.
  ensure_login_role_others :
      (role other : String) (password : Bytes) (s : RoleState)
      → role ≢ other
      → (member other (ensure_login_role connection role password s).1.roles ≡ member other s.roles)
        × (lookup other (ensure_login_role connection role password s).1.passwords
            ≡ lookup other s.passwords)
  unfolding ensure_login_role create_role
  ensure_login_role_others role other password s n = (
    ground (arith, member-add role other s.roles, eq_iff role other),
    ground (arith, lookup-insert role other password s.passwords, eq_iff role other),
  )

  ensure_login_role_executes :
      (role : String) (password : Bytes) (s : RoleState)
      → (ensure_login_role connection role password s).1.executed ≡ s.executed
  unfolding ensure_login_role create_role
  ensure_login_role_executes role password s = ground arith

  execute_all_lem :
      (statements : List String) (s : RoleState)
      → ((execute_all connection statements s).1.roles ≡ s.roles)
        × ((execute_all connection statements s).1.passwords ≡ s.passwords)
        × (is_ok (execute_all connection statements s).0 ≡ true
            → (execute_all connection statements s).1.executed ≡ s.executed ++ statements)
  unfolding execute_all
  execute_all_lem [] s = (refl, refl, λ h. sym (append-nil s.executed))
  execute_all_lem (statement ∷ statements) s =
      let next : RoleState = record {
        roles = s.roles;
        passwords = s.passwords;
        executed = s.executed ++ (statement ∷ []);
      } in
      let (roles, passwords, executed) = execute_all_lem statements next in
      elim (Bool-cases (connection.executes statement)) [
        | inr failed ↦ rw failed (refl, refl, λ h. cc)
        | inl passed ↦ rw passed (
          roles,
          passwords,
          λ h. executed h ∙ append_assoc s.executed (statement ∷ []) statements,
        )
      ]

  differ : migrate_role ≢ api_role
  differ = ground (arith, eq_iff migrate_role api_role)

  -- What each outcome of the initialisation shows.
  abbrev Initialised : Bytes → Bytes → RoleState → Outcome → Type 0
  Initialised api_password migrate_password s outcome =
      (is_ok outcome.0 ≡ true
        → LogsIn api_role api_password outcome.1
          × LogsIn migrate_role migrate_password outcome.1
          × (outcome.1.executed ≡ s.executed ++ grants connection))
      × ((other : String)
          → api_role ≢ other
          → migrate_role ≢ other
          → (member other outcome.1.roles ≡ member other s.roles)
            × (lookup other outcome.1.passwords ≡ lookup other s.passwords))

  granted :
      (api_password migrate_password : Bytes) (s t : RoleState)
      → LogsIn api_role api_password t
      → LogsIn migrate_role migrate_password t
      → t.executed ≡ s.executed
      → ((other : String)
          → api_role ≢ other
          → migrate_role ≢ other
          → (member other t.roles ≡ member other s.roles)
            × (lookup other t.passwords ≡ lookup other s.passwords))
      → Initialised api_password migrate_password s (execute_all connection (grants connection) t)
  granted api_password migrate_password s t api migrate executed kept =
      let (roles, passwords, all_executed) = execute_all_lem (grants connection) t in
      (
        λ h. (
          record {
            exists = ap (member api_role) roles ∙ api.exists;
            authenticates = ap (lookup api_role) passwords ∙ api.authenticates;
          },
          record {
            exists = ap (member migrate_role) roles ∙ migrate.exists;
            authenticates = ap (lookup migrate_role) passwords ∙ migrate.authenticates;
          },
          all_executed h ∙ ap (λ e. e ++ grants connection) executed,
        ),
        λ other n m. (
          ap (member other) roles ∙ (kept other n m).0,
          ap (lookup other) passwords ∙ (kept other n m).1,
        ),
      )

  initialise_database-Initialised :
      (api_password migrate_password : Bytes) (s : RoleState)
      → Initialised api_password migrate_password s
          (initialise_database connection api_password migrate_password s)
  unfolding initialise_database
  initialise_database-Initialised api_password migrate_password s =
      let first = ensure_login_role connection api_role api_password s in
      let second = ensure_login_role connection migrate_role migrate_password first.1 in
      let kept = λ (other : String) (n : api_role ≢ other).
        ensure_login_role_others api_role other api_password s n in
      let later = λ (other : String) (n : migrate_role ≢ other).
        ensure_login_role_others migrate_role other migrate_password first.1 n in
      otherwise_lem (Initialised api_password migrate_password s) _ first _
        (λ h. cc, λ other n m. kept other n)
        (λ a.
          otherwise_lem (Initialised api_password migrate_password s) _ second _
            (
              λ h. cc,
              λ other n m.
                  ((later other m).0 ∙ (kept other n).0, (later other m).1 ∙ (kept other n).1),
            )
            (λ b.
              let mine = ensure_login_role-LogsIn api_role api_password s a in
              let (there, known) = later api_role differ in
              granted api_password migrate_password s second.1
                (record {
                  exists = there ∙ mine.exists;
                  authenticates = known ∙ mine.authenticates;
                })
                (ensure_login_role-LogsIn migrate_role migrate_password first.1 b)
                (ensure_login_role_executes migrate_role migrate_password first.1
                  ∙ ensure_login_role_executes api_role api_password s)
                (λ other n m.
                  ((later other m).0 ∙ (kept other n).0, (later other m).1 ∙ (kept other n).1))))

  -- When initialiseDatabase succeeds, the roles of the API and of the migrations exist and log in
  -- with the passwords that it was given, and the seven grants were executed in order. Whatever it
  -- returns, every other role exists exactly where it existed before, with the same password.
  pub initialise_database_sound :
      (api_password migrate_password : Bytes) (s : RoleState) (other : String)
      → api_role ≢ other
      → migrate_role ≢ other
      → let (outcome, after) = initialise_database connection api_password migrate_password s in
        (((outcome ≡ ok tt)
            × LogsIn api_role api_password after
            × LogsIn migrate_role migrate_password after
            × (after.executed ≡ s.executed ++ grants connection))
          ⊎ ((e : String) × (outcome ≡ err e)))
        × (member other after.roles ≡ member other s.roles)
        × (lookup other after.passwords ≡ lookup other s.passwords)
  initialise_database_sound api_password migrate_password s other n m =
      let (done, kept) = initialise_database-Initialised api_password migrate_password s in
      (
        elim (Result-cases (initialise_database connection api_password migrate_password s).0) [
          | inl (_, passed) ↦
              let (api, migrate, granted) = done (ground arith) in
              inl (passed, api, migrate, granted)
          | inr failed ↦ inr failed
        ],
        (kept other n m).0,
        (kept other n m).1,
      )
