-- ===== src/Webconfig.antt =====
-- cmd/webconfig/main.go. The file system is a function from paths to a file's content and mode; the
-- outcome of each call on it is a parameter, `none` where it succeeds.
pub mod Laws
use accountable.Prelude.{
  ℕ, String, Bool, not, ◌&&◌, ◌||◌, Option, none, some, List, [], ◌∷◌, Result, ok, err, ◌>>=◌, ◌>>◌,
  ◌==◌, if◌then◌else◌,
}
use accountable.Text.Paths.{is_abs, clean}
use accountable.Bootstrap.Config.Failure.{Failure, message, refuse}

abbrev usage : String
usage = "usage: --config <absolute-path> --revision <revision> --output <absolute-path>"

pub record Arguments : Type 0 where
  pub config_path : String
  pub revision : String
  pub output_path : String

unfoldable pub parse_args : List String → Result Failure Arguments
parse_args (a ∷ config_path ∷ b ∷ revision ∷ c ∷ output_path ∷ []) = do
  refuse (not (a == "--config") || not (b == "--revision") || not (c == "--output")) usage
  refuse (revision == "" || not (is_abs config_path) || not (is_abs output_path)) usage
  ok (record {
    config_path = clean config_path;
    revision = revision;
    output_path = clean output_path;
  })
parse_args _ = err (message usage)

pub record File : Type 0 where
  pub content : String
  pub mode : ℕ

abbrev pub Files : Type 0
Files = String → Option File

abbrev pub put : String → File → Files → Files
put path file files x = if x == path then some file else files x

abbrev pub remove : String → Files → Files
remove path files x = if x == path then none else files x

-- The file that has one name gets another, in place of the file that had it.
abbrev pub move : String → String → Files → Files
move source target files x =
    if x == target then files source else if x == source then none else files x

abbrev pub with_mode : ℕ → Option File → Option File
with_mode mode none = none
with_mode mode (some file) = some (record { content = file.content; mode = mode })

abbrev pub chmod : String → ℕ → Files → Files
chmod name mode files x = if x == name then with_mode mode (files x) else files x

-- What the calls answer. A failed write has written `partial`.
pub record Calls : Type 0 where
  pub temporary : String
  pub partial : String
  pub create_error : Option String
  pub write_error : Option String
  pub chmod_error : Option String
  pub close_error : Option String
  pub rename_error : Option String
  pub remove_error : Option String

module _ (calls : Calls) (path document : String) where
  abbrev temporary_file : String → ℕ → Files → Files
  temporary_file content mode files =
      put calls.temporary (record { content = content; mode = mode }) files

  -- os.Rename, which leaves both names alone when it fails
  renamed : Option String → Files → Files × Result String (Unit {0})
  renamed (some e) files = (files, err e)
  renamed none files = (move calls.temporary path files, ok tt)

  closed : Option String → Files → Files × Result String (Unit {0})
  unfolding renamed
  closed (some e) files = (files, err e)
  closed none files = renamed calls.rename_error files

  changed : Option String → Files → Files × Result String (Unit {0})
  unfolding closed
  changed (some e) files = (files, err e)
  changed none files = closed calls.close_error (chmod calls.temporary 0o644 files)

  written : Option String → Files → Files × Result String (Unit {0})
  unfolding changed
  written (some e) files = (temporary_file calls.partial 0o600 files, err e)
  written none files = changed calls.chmod_error (temporary_file document 0o600 files)

  -- The deferred os.Remove, whose error is dropped: one that fails leaves the name alone.
  removed : Option String → Files → Files
  removed (some e) files = files
  removed none files = remove calls.temporary files

  created : Option String → Files → Files × Result String (Unit {0})
  unfolding written removed
  created (some e) files = (files, err e)
  created none files =
      let (after, result) = written calls.write_error (temporary_file "" 0o600 files) in
      (removed calls.remove_error after, result)

  -- writeArtifact: the deferred Remove runs last, once the temporary file was created.
  unfoldable pub write_artifact : Files → Files × Result String (Unit {0})
  unfolding created
  write_artifact files = created calls.create_error files
