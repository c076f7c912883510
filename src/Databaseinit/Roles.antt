-- ===== src/Databaseinit/Roles.antt =====
-- initialiseDatabase and ensureLoginRole of cmd/bootstrap/main.go. Which statements fail is a parameter.
pub mod Laws
use Prim.Native.String.{◌++◌ as concat}
use accountable.Prelude.{
  String, Bool, true, false, not, List, [], ◌∷◌, ◌++◌, Result, ok, err, if◌then◌else◌,
}
use accountable.Bytes.{Bytes}
use accountable.Maps.{Dict, lookup, insert, member, add}

abbrev pub api_role : String
api_role = "accountable_api"

abbrev pub database_name : String
database_name = "accountable"

abbrev pub master_role : String
master_role = "accountable_admin"

abbrev pub migrate_role : String
migrate_role = "accountable_migrate"

-- The roles of the server, the passwords of those that may log in, and the statements executed.
pub record RoleState : Type 0 where
  pub roles : List String
  pub passwords : Dict Bytes
  pub executed : List String

-- Which calls return without an error: the query and the creation of a role, the query that formats the
-- ALTER ROLE statement and its execution, and a statement of the grants; and Identifier's Sanitize.
pub record Connection : Type 0 where
  pub queries : String → Bool
  pub creates : String → Bool
  pub formats : String → Bool
  pub alters : String → Bool
  pub executes : String → Bool
  pub sanitize : String → String

abbrev pub Outcome : Type 0
Outcome = Result String (Unit {0}) × RoleState

-- if err := ...; err != nil { return errors.New(...) }
abbrev pub otherwise : String → Outcome → (RoleState → Outcome) → Outcome
otherwise e (err _, s) next = (err e, s)
otherwise e (ok _, s) next = next s

abbrev pub attempt : Bool → RoleState → RoleState → Outcome
attempt true before changed = (ok tt, changed)
attempt false before changed = (err "the statement failed", before)

module _ (connection : Connection) where
  -- CREATE ROLE, for a role that does not exist
  unfoldable pub create_role : String → RoleState → Outcome
  create_role role s =
      if member role s.roles
      then (ok tt, s)
      else attempt (connection.creates role) s
          (record { roles = add role s.roles; passwords = s.passwords; executed = s.executed })

  unfoldable pub ensure_login_role : String → Bytes → RoleState → Outcome
  unfolding create_role
  ensure_login_role role password s =
      otherwise "the statement failed" (attempt (connection.queries role) s s) (λ s.
        otherwise "the statement failed" (create_role role s) (λ s.
          otherwise "the statement failed" (attempt (connection.formats role) s s) (λ s.
            attempt (connection.alters role) s (record {
              roles = s.roles;
              passwords = insert role password s.passwords;
              executed = s.executed;
            }))))

  abbrev pub quoted : String → String
  quoted name = connection.sanitize name

  abbrev pub default_privileges : String → String → String
  default_privileges privileges objects = concat "ALTER DEFAULT PRIVILEGES FOR ROLE " (
      concat (quoted migrate_role) (
        concat " IN SCHEMA public GRANT "
          (concat privileges (concat " ON " (concat objects (concat " TO " (quoted api_role)))))))

  unfoldable pub grants : List String
  grants =
      concat "GRANT CONNECT ON DATABASE "
        (concat (quoted database_name) (concat " TO " (quoted api_role)))
      ∷ concat "GRANT CONNECT ON DATABASE "
          (concat (quoted database_name) (concat " TO " (quoted migrate_role)))
      ∷ concat "GRANT USAGE ON SCHEMA public TO " (quoted api_role)
      ∷ concat "GRANT USAGE, CREATE ON SCHEMA public TO " (quoted migrate_role)
      ∷ concat "GRANT " (concat (quoted migrate_role) (concat " TO " (quoted master_role)))
      ∷ default_privileges "SELECT, INSERT, UPDATE, DELETE" "TABLES"
      ∷ default_privileges "USAGE, SELECT, UPDATE" "SEQUENCES"
      ∷ []

  unfoldable pub execute_all : List String → RoleState → Outcome
  execute_all [] s = (ok tt, s)
  execute_all (statement ∷ statements) s =
      otherwise "database grants cannot be initialised"
        (attempt (connection.executes statement) s (record {
          roles = s.roles;
          passwords = s.passwords;
          executed = s.executed ++ (statement ∷ []);
        }))
        (execute_all statements)

  unfoldable pub initialise_database : Bytes → Bytes → RoleState → Outcome
  unfolding ensure_login_role execute_all grants
  initialise_database api_password migrate_password s =
      otherwise "API database role cannot be initialised"
        (ensure_login_role api_role api_password s)
        (λ s.
          otherwise "migration database role cannot be initialised"
            (ensure_login_role migrate_role migrate_password s) (execute_all grants))
