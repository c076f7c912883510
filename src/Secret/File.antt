-- ===== src/Secret/File.antt =====
-- FileSecretSource of internal/platform/secret/secret.go. The file system's answers and ctx.Err() at
-- a reference are parameters.
pub mod Below
pub mod Laws
use Prim.Native.Nat.{bit_and}
use accountable.Prelude.{
  ℕ, suc, ◌+◌, String, Bool, true, false, not, ◌&&◌, ◌||◌, Option, none, some, List, [], ◌∷◌,
  length, Result, ok, err, ◌>>=◌, ◌>>◌, reject, or_else, is_some, ltb, eqb, ◌==◌, if◌then◌else◌,
}
use accountable.Bytes.{Bytes, take, trim_byte}
use accountable.Maps.{Dict}
use accountable.Text.{has_prefix}
use accountable.Text.Paths.{is_abs, clean, join_paths, dir}
use accountable.Text.Paths.Rel.{rel}
use accountable.Secret.Ref.{parse_ref}
use accountable.Secret.Batch.{resolve_each}

abbrev pub maximum_secret_bytes : ℕ
maximum_secret_bytes = 65536

-- What os.Lstat tells of a file.
pub record FileInfo : Type 0 where
  pub is_dir : Bool
  pub is_regular : Bool
  pub is_symlink : Bool
  pub perm : ℕ

-- `read` is io.ReadAll of a file that os.Open opened.
pub record Disk : Type 0 where
  pub context_error : String → Option String
  pub eval_symlinks : String → Option String
  pub lstat : String → Option FileInfo
  pub can_open : String → Bool
  pub read : String → Option Bytes

pub record FileSecretSource : Type 0 where
  pub root : String

abbrev pub from_option {ℓ} : {A : Type ℓ} → String → Option A → Result String A
from_option e none = err e
from_option e (some a) = ok a

abbrev pub context : Option String → Result String (Unit {0})
context none = ok tt
context (some e) = err e

unfoldable pub new_file_secret_source : Disk → String → Result String FileSecretSource
new_file_secret_source disk root = do
  reject (not (is_abs root)) "secret directory must be absolute"
  resolved ← from_option "secret directory is unavailable" (disk.eval_symlinks (clean root))
  info ← from_option "secret directory is unavailable" (disk.lstat resolved)
  reject (not info.is_dir || info.is_symlink) "secret directory is unavailable"
  ok (record { root = resolved })

unfoldable pub is_below : Option String → Bool
is_below none = false
is_below (some relative) =
    not (relative == "..") && not (is_abs relative) && not (has_prefix relative "../")

unfoldable pub within : String → String → Bool
unfolding is_below
within root path = is_below (rel root path)

-- info.Mode().Perm() & 0o077 != 0
abbrev pub others_may_access : FileInfo → Bool
others_may_access info = not (eqb (bit_and info.perm 0o077) 0)

-- a line's end: one '\n', then one '\r'
abbrev pub trim_line_end : Bytes → Bytes
trim_line_end value = trim_byte 0x0d (trim_byte 0x0a value)

unfoldable pub checked_content : Bytes → Result String Bytes
unfolding trim_byte
checked_content limited = do
  reject (ltb maximum_secret_bytes (length limited)) "secret cannot be read safely"
  reject (eqb (length (trim_line_end limited)) 0) "secret is empty"
  ok (trim_line_end limited)

module _ (disk : Disk) (source : FileSecretSource) where
  -- the checks on the path of a parsed reference
  unfoldable pub check_path : String → Result String (Unit {0})
  check_path path = do
    reject (not (within source.root path)) "secret reference is invalid"
    parent ← from_option "secret is unavailable" (disk.eval_symlinks (dir path))
    reject (not (within source.root parent)) "secret is unavailable"
    info ← from_option "secret is unavailable" (disk.lstat path)
    reject (not info.is_regular || info.is_symlink) "secret is unavailable"
    reject (others_may_access info) "secret file permissions are unsafe"
    reject (not (disk.can_open path)) "secret is unavailable"

  unfoldable pub resolve : String → Result String Bytes
  resolve ref = do
    context (disk.context_error ref)
    parsed ← or_else (parse_ref ref) "secret reference is invalid"
    let path = join_paths source.root parsed
    check_path path
    content ← from_option "secret cannot be read safely" (disk.read path)
    checked_content (take (suc maximum_secret_bytes) content)

  unfoldable pub resolve_batch : List String → Result String (Dict Bytes)
  unfolding resolve_each
  resolve_batch refs = resolve_each "secret references must be unique" resolve refs []
