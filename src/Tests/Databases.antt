-- ===== src/Tests/Databases.antt =====
-- The database, its migrations and its roles.
use accountable.Prelude.{
  suc, ◌<◌, ◌++◌, String, Bool, true, false, ◌≡◌, ◌≢◌, ◌⊎◌, ◌↔◌, refl, some, List, [], ◌∷◌, ok, err,
  is_some, arith, eq_iff,
}
use accountable.Bytes.{Bytes}
use accountable.Maps.{Dict, lookup, insert, member}
use accountable.Text.{split, join, all_chars, rune_count}
use accountable.Go.{pos, negsuc}
use accountable.Go.Durations.{◌+ℤ◌, ◌-ℤ◌, ◌≤ℤ◌, max_duration, sub}
use accountable.Database.Config.{DatabaseConfig}
use accountable.Database.Schema.{DatabaseError, validate_schema_state}
use accountable.Database.Check.{
  Answers, SessionRow, SchemaRow, SafeSession, check, check_session, session_safe, check_schema,
  check_sound,
}
use accountable.Database.Clock.{check_clock, midpoint, check_clock_iff, check_clock_bounds}
use accountable.Database.Open.{Packages, Database, pool_config, open_database}
use accountable.Database.Open.Laws.{open_database_sound}
use accountable.Migration.Catalogue.{
  Source, filename_version, merge_sources, merge_all, merge_entries, merge_file,
}
use accountable.Migration.Catalogue.Laws.{merge_sources_sound}
use accountable.Migration.Runner.{
  SchemaTable, missing, empty, MigrationState, Calls, exists, run_fs, with_table,
}
use accountable.Migration.Runner
use accountable.Migration.Runner.Laws.{
  GooseUp, Refused, schema_row, supported, is_dirty, run_fs_sound,
}
use accountable.Databaseinit.Roles.{
  RoleState, Connection, grants, initialise_database, api_role, migrate_role,
}
use accountable.Databaseinit.Roles.Laws.{LogsIn, initialise_database_sound}

abbrev config : DatabaseConfig
config = record {
  host = "db.internal";
  port = 5432;
  name = "accountable";
  user = "accountable_api";
  role = "accountable_api";
  password_ref = "database-password";
  tls_mode = "verify-full";
  tls_root_ca_file = "/etc/ssl/ca.pem";
  connect_timeout = pos 5_000_000_000;
  statement_timeout = pos 3_000_000_000;
  health_check_interval = pos 30_000_000_000;
  max_connections = pos 8;
  timezone = "UTC";
}

abbrev answers : Answers
answers = record {
  acquires = true;
  session = some (record {
    timezone = "UTC";
    session_user = "accountable_api";
    current_role = "accountable_api";
    statement_timeout_matches = true;
    tls_active = true;
  });
  schema_exists = some true;
  schema_row = SchemaRow.row (pos 20260801000000) false;
  pings = true;
}

checked : (check config answers 2).0 ≡ ok tt
unfolding check check_session session_safe check_schema validate_schema_state
checked = refl

check_sound_example :
    ((check config answers 2).1 ≡ 2)
    × (answers.acquires ≡ true)
    × ((session : SessionRow) × (answers.session ≡ some session) × SafeSession config session)
    × (answers.schema_exists ≡ some true)
    × (answers.schema_row ≡ SchemaRow.row (pos 20260801000000) false)
check_sound_example = check_sound config answers 2 checked

small : 1000 < max_duration
small = omega arith

check_clock_iff_example :
    (check_clock (pos 5000) (some (pos 5900)) (pos 5100) (pos 1000) ≡ ok tt) ↔ (
      ((pos 5900 -ℤ midpoint (pos 5000) (pos 5100) ≤ℤ pos 1000)
        × (pos 0 ≤ℤ pos 5900 -ℤ midpoint (pos 5000) (pos 5100) +ℤ pos 1000))
      ⊎ (pos 5900 -ℤ midpoint (pos 5000) (pos 5100) ≤ℤ negsuc max_duration))
check_clock_iff_example = check_clock_iff (pos 5000) (pos 5900) (pos 5100) 1000 small

clock_accepted : check_clock (pos 5000) (some (pos 5900)) (pos 5100) (pos 1000) ≡ ok tt
unfolding check_clock midpoint sub ◌+ℤ◌ ◌-ℤ◌
clock_accepted = refl

in_order : pos 5000 ≤ℤ pos 5100
in_order = omega arith

close : pos 5100 -ℤ pos 5000 ≤ℤ pos max_duration
unfolding ◌-ℤ◌
close = ground arith

not_far : ¬ (pos 5900 -ℤ midpoint (pos 5000) (pos 5100) ≤ℤ negsuc max_duration)
unfolding midpoint sub ◌+ℤ◌ ◌-ℤ◌
not_far h = ground arith

check_clock_bounds_example : (pos 5000 ≤ℤ pos 5900 +ℤ pos 1000) × (pos 5900 ≤ℤ pos 5100 +ℤ pos 1000)
check_clock_bounds_example =
    check_clock_bounds (pos 5000) (pos 5900) (pos 5100) 1000 small in_order close not_far
      clock_accepted

abbrev packages : Packages
packages = record {
  join_host_port = λ host port. host;
  sanitize = λ name. name;
  parses = λ url. true;
  creates = λ pool. true;
  resolve_batch = λ refs. some (("database-password", 1 ∷ []) ∷ []);
}

open_database_sound_example :
    let (outcome, pools) = open_database packages config answers 3 in
    (pools.in_use ≡ 0)
    × (((database : Database) × (outcome ≡ ok database)
          × (pools.opened ≡ suc 3)
          × (database.config ≡ config)
          × (pool_config packages config ≡ ok database.pool)
          × ((check database.config answers 0).0 ≡ ok tt))
        ⊎ ((e : DatabaseError) × (outcome ≡ err e) × (pools.opened ≡ 3)))
open_database_sound_example = open_database_sound packages config answers 3

abbrev first_name : String
first_name = "20260801000000_platform_schema_state.sql"

abbrev sources : List Source
sources =
    record {
      owner = "platform/database";
      tree = record {
        read_dir = some (record { name = first_name; is_dir = false } ∷ []);
        read_file = λ name. some (1 ∷ []);
      };
    }
    ∷ []

abbrev merged : Dict Bytes
merged = (first_name, 1 ∷ []) ∷ []

sources_merge : merge_sources sources ≡ ok merged
unfolding merge_sources merge_all merge_entries merge_file filename_version split join all_chars
    rune_count lookup insert
sources_merge = refl

first_present : is_some (lookup first_name merged) ≡ true
unfolding lookup
first_present = refl

first_version : filename_version first_name ≡ some "20260801000000"
unfolding filename_version split join all_chars rune_count
first_version = refl

merge_sources_sound_example : first_name ≡ first_name
merge_sources_sound_example =
    merge_sources_sound sources merged sources_merge first_name first_name "20260801000000"
      first_present first_present first_version first_version

abbrev created_table : SchemaTable → SchemaTable
created_table missing = Runner.row (pos 0) false
created_table empty = empty
created_table (Runner.row version dirty) = Runner.row version dirty

abbrev up : MigrationState → Bool × MigrationState
up s = (true, with_table (created_table s.table) s)

abbrev calls : Calls
calls = record {
  try_lock = true;
  unlock = true;
  set_time_zone = true;
  read_time_zone = some "UTC";
  set_search_path = true;
  set_dialect = true;
  read_version = true;
  collect = λ version. some 1;
  read_exists = true;
  mark_dirty = true;
  mark_dirty_rows = true;
  up = up;
  read_migrated_version = true;
  finalize = true;
  finalize_rows = true;
  read_state = true;
}

created_dirty :
    (table : SchemaTable) → is_dirty table ≡ true → is_dirty (created_table table) ≡ true
created_dirty missing h = cc
created_dirty empty h = cc
created_dirty (Runner.row version dirty) h = h

created_missing :
    (table : SchemaTable)
    → table ≡ missing
    → (created_table table ≡ missing) ⊎ (created_table table ≡ Runner.row (pos 0) false)
created_missing table h = ground arith

up-GooseUp : GooseUp up
up-GooseUp = record {
  stays_dirty = λ s h. created_dirty s.table h;
  creates = λ s h. created_missing s.table h;
}

abbrev fresh : MigrationState
fresh = record {
  table = missing;
  goose_version = pos 20260801000000;
  lock_free = true;
  locked = false;
}

run_fs_sound_example :
    let (outcome, after) = run_fs calls fresh in
    ((outcome ≡ ok tt)
      × (check_schema (some (exists after.table)) (schema_row after.table) ≡ ok tt))
    ⊎ ((e : String) × (outcome ≡ err e)
        × ((after.table ≡ fresh.table)
            ⊎ Refused after.table
            ⊎ ((calls.finalize_rows ≡ false) × (after.table ≡ supported))))
run_fs_sound_example = run_fs_sound calls up-GooseUp fresh

abbrev connection : Connection
connection = record {
  queries = λ role. true;
  creates = λ role. true;
  formats = λ role. true;
  alters = λ role. true;
  executes = λ statement. true;
  sanitize = λ name. name;
}

abbrev no_roles : RoleState
no_roles = record { roles = "postgres" ∷ []; passwords = []; executed = [] }

not_api : api_role ≢ "postgres"
not_api = ground (arith, eq_iff api_role "postgres")

not_migrate : migrate_role ≢ "postgres"
not_migrate = ground (arith, eq_iff migrate_role "postgres")

initialise_database_sound_example :
    let (outcome, after) = initialise_database connection (1 ∷ []) (2 ∷ []) no_roles in
    (((outcome ≡ ok tt)
        × LogsIn api_role (1 ∷ []) after
        × LogsIn migrate_role (2 ∷ []) after
        × (after.executed ≡ no_roles.executed ++ grants connection))
      ⊎ ((e : String) × (outcome ≡ err e)))
    × (member "postgres" after.roles ≡ member "postgres" no_roles.roles)
    × (lookup "postgres" after.passwords ≡ lookup "postgres" no_roles.passwords)
initialise_database_sound_example =
    initialise_database_sound connection (1 ∷ []) (2 ∷ []) no_roles "postgres" not_api not_migrate
