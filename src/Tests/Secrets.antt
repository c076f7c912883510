-- ===== src/Tests/Secrets.antt =====
-- Secrets, cryptors and the bucket of a store.
use accountable.Prelude.{
  ℕ, ◌+◌, String, true, false, ◌≡◌, ◌⊎◌, refl, Option, none, some, List, [], ◌∷◌, All, Result, ok,
  err, arith, eq_iff, eq_refl,
}
use accountable.Bytes.{Bytes, take, trim_byte}
use accountable.Maps.{Dict, lookup, insert, lookup-insert}
use accountable.Text.{split, has_prefix}
use accountable.Text.Paths.{is_abs, clean, clean_parts, render, join_paths, dir}
use accountable.Text.Paths.Rel.{rel, strip_common}
use accountable.Secret.Ref.{SecretConfig, parse_ref, secret_ref_pattern}
use accountable.Secret.Batch.{Distinct, resolve_each}
use accountable.Secret.File.{
  FileInfo, Disk, FileSecretSource, within, is_below, checked_content, check_path, resolve,
}
use accountable.Secret.File
use accountable.Secret.File.Laws.{ReadSafely, resolve_batch_sound}
use accountable.Secret.Infisical.{
  ApiError, secret_not_found, StoreApi, resolve_or_create, resolve_or_create_each,
  resolve_or_create_batch, resolve_batch,
}
use accountable.Secret.Infisical.Laws.{Reflects, Keeps}
use accountable.Secret.Infisical.Rerun.{
  Reliable, resolve_or_create_batch-Keeps, resolve_batch_rerun,
}
use accountable.Secret.Infisical.Http.{
  HttpRequest, HttpResponse, Packages, read, read_request, do_json, answered,
}
use accountable.Secret.Infisical.Http.Laws.{read_missing}
use accountable.Databaseinit.Passwords.{
  password_ref, resolve_database_password, resolve_database_password_sound,
}

-- A directory with one secret file.
abbrev disk : Disk
disk = record {
  context_error = λ ref. none;
  eval_symlinks = λ path. some path;
  lstat =
      λ path. some (record { is_dir = false; is_regular = true; is_symlink = false; perm = 0o600 });
  can_open = λ path. true;
  read = λ path. some (104 ∷ 105 ∷ 0x0d ∷ 0x0a ∷ []);
}

abbrev source : FileSecretSource
source = record { root = "/run/secrets" }

abbrev files_read : Dict Bytes
files_read = ("db/password", 104 ∷ 105 ∷ []) ∷ []

source_reads : File.resolve_batch disk source ("db/password" ∷ []) ≡ ok files_read
unfolding File.resolve_batch resolve_each resolve parse_ref secret_ref_pattern clean render
    clean_parts split is_abs has_prefix join_paths dir check_path within is_below rel strip_common
    checked_content take trim_byte lookup insert
source_reads = refl

source_is_abs : is_abs source.root ≡ true
unfolding is_abs has_prefix
source_is_abs = refl

resolve_batch_sound_example :
    Distinct ("db/password" ∷ [])
    × All
        (λ ref.
          (value : Bytes) × ReadSafely disk source ref value × (lookup ref files_read ≡ some value))
        ("db/password" ∷ [])
resolve_batch_sound_example =
    resolve_batch_sound disk source ("db/password" ∷ []) files_read source_is_abs source_reads

-- A store that keeps its secrets in a map.
abbrev read_map : Option Bytes → Result ApiError Bytes
read_map none = err secret_not_found
read_map (some value) = ok value

abbrev store : StoreApi (Dict Bytes)
store = record {
  login = λ s. (ok "token", s);
  read = λ token ref s. (read_map (lookup ref s), s);
  create = λ token ref value s. (ok tt, insert ref value s);
}

abbrev held : Dict Bytes → String → Option Bytes
held s key = lookup key s

read_map_found :
    (found : Option Bytes) (value : Bytes) → read_map found ≡ ok value → found ≡ some value
read_map_found found value h = ground arith

read_map_missing : (found : Option Bytes) → read_map found ≡ err secret_not_found → found ≡ none
read_map_missing found h = ground arith

store-Reflects : Reflects store held
store-Reflects = record {
  login_keeps = λ s key. refl;
  read_keeps = λ token ref s key. refl;
  read_found = λ token ref s value h. read_map_found (lookup ref s) value h;
  read_missing = λ token ref s h. read_map_missing (lookup ref s) h;
  create_others =
      λ token ref value s key n. ground (arith, lookup-insert ref key value s, eq_iff ref key);
  create_stored = λ token ref value s h. ground (arith, lookup-insert ref ref value s, eq_refl ref);
}

store-Reliable : Reliable store held
store-Reliable = record {
  admits = λ s. ("token", refl, λ e. ground (arith, eq_iff "token" ""));
  read_held = λ token ref s value h. ground arith;
}

abbrev generate : String → Result ApiError Bytes
generate ref = ok (1 ∷ 2 ∷ 3 ∷ [])

abbrev earlier : Dict Bytes
earlier = ("other", 9 ∷ []) ∷ []

abbrev wanted : List String
wanted = "other" ∷ "database-password" ∷ []

abbrev resolved : Dict Bytes
resolved = ("other", 9 ∷ []) ∷ ("database-password", 1 ∷ 2 ∷ 3 ∷ []) ∷ []

other_held : held earlier "other" ≡ some (9 ∷ [])
unfolding lookup
other_held = refl

resolve_or_create_batch-Keeps_example :
    held (resolve_or_create_batch store wanted (some generate) earlier).1 "other" ≡ some (9 ∷ [])
resolve_or_create_batch-Keeps_example =
    resolve_or_create_batch-Keeps store held store-Reflects wanted (some generate) earlier "other"
      (9 ∷ []) other_held

batch_resolves : (resolve_or_create_batch store wanted (some generate) earlier).0 ≡ ok resolved
unfolding resolve_or_create_batch resolve_or_create_each resolve_or_create parse_ref
    secret_ref_pattern clean render clean_parts split is_abs has_prefix lookup insert
batch_resolves = refl

nothing_changed :
    Keeps held
      (resolve_or_create_batch store wanted (some generate) earlier).1
      (resolve_or_create_batch store wanted (some generate) earlier).1
nothing_changed key value h = h

resolve_batch_rerun_example :
    (resolve_batch store wanted (resolve_or_create_batch store wanted (some generate) earlier).1).0
    ≡ ok resolved
resolve_batch_rerun_example =
    resolve_batch_rerun store held store-Reflects store-Reliable wanted (some generate) earlier
      (resolve_or_create_batch store wanted (some generate) earlier).1 resolved batch_resolves
      nothing_changed

abbrev passwords : Dict Bytes
passwords = (password_ref, 7 ∷ 7 ∷ []) ∷ []

password_resolves : (resolve_database_password store (ok (1 ∷ [])) passwords).0 ≡ ok (7 ∷ 7 ∷ [])
unfolding resolve_database_password resolve_or_create_batch resolve_or_create_each resolve_or_create
    parse_ref secret_ref_pattern clean render clean_parts split is_abs has_prefix lookup insert
password_resolves = refl

resolve_database_password_sound_example :
    (held (resolve_database_password store (ok (1 ∷ [])) passwords).1 password_ref
      ≡ some (7 ∷ 7 ∷ []))
    × ((held passwords password_ref ≡ none) ⊎ (held passwords password_ref ≡ some (7 ∷ 7 ∷ [])))
resolve_database_password_sound_example =
    resolve_database_password_sound store held store-Reflects (ok (1 ∷ [])) passwords (7 ∷ 7 ∷ [])
      password_resolves

-- A server without secrets.
abbrev request : HttpRequest
request = record { method = "GET"; url = ""; host = ""; headers = []; body = [] }

abbrev packages : Packages ℕ String
packages = record {
  retrieve = λ s. ok "credentials";
  new_request = λ method url body. ok request;
  sign = λ credentials request hash region s. ok request;
  send = λ request s. (some (record { status = 404; body = [] }), s + 1);
  sha256_hex = λ body. "";
  base64 = λ body. "";
  itoa = λ n. "";
  path_escape = λ text. text;
  encode_query = λ query. "";
  marshal = λ fields. ok [];
  decode_token = λ body. none;
  decode_secret = λ body. none;
  at_end = λ body. true;
  text_bytes = λ text. [];
  bytes_text = λ bytes. "";
}

abbrev config : SecretConfig
config = record {
  provider = "infisical";
  directory = "";
  site_url = "https://eu.infisical.com";
  aws_region = "eu-west-2";
  project_id = "p";
  environment = "production";
  secret_path = "/api";
  auth_method = "aws-iam";
  machine_identity_id = "m";
}

nothing_found : (read packages config "token" "db/password" 0).0 ≡ err secret_not_found
unfolding read read_request do_json answered insert
nothing_found = refl

read_missing_example :
    (request : HttpRequest) × (read_request packages config "token" "db/password" ≡ ok request)
    × (response : HttpResponse) × ((packages.send request 0).0 ≡ some response)
    × (response.status ≡ 404)
read_missing_example = read_missing packages config "token" "db/password" 0 nothing_found
