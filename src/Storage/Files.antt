-- ===== src/Storage/Files.antt =====
-- FileStorage of internal/platform/storage/storage.go. The operating system is a parameter; the state
-- counts the temporary files of the directory.
use Prim.Native.Nat.{bit_and}
use accountable.Prelude.{
  ℕ, suc, ◌-◌, String, Bool, true, false, not, ◌&&◌, ◌||◌, ◌≡◌, Option, none, some, Result, ok, err,
  ◌>>◌, reject, eqb, if◌then◌else◌, arith,
}
use accountable.Bytes.{Bytes}
use accountable.Text.Paths.{is_abs, clean}
use accountable.Secret.File.{FileInfo, context}
use accountable.Storage.Objects.{storage_unavailable, same_bytes}

pub record FileStorage : Type 0 where
  pub root : String

-- Which calls on the temporary file succeed, and what ReadFile returns.
pub record FileSystem : Type 0 where
  pub lstat : String → Option FileInfo
  pub create_temp : Bool
  pub chmod : Bool
  pub write : Bool
  pub close : Bool
  pub read : Option Bytes
  pub remove : Bool

abbrev pub is_directory : Option FileInfo → Bool
is_directory none = false
is_directory (some info) = info.is_dir && not info.is_symlink

abbrev pub is_writable : Option FileInfo → Bool
is_writable none = false
is_writable (some info) =
    info.is_dir && not info.is_symlink && not (eqb (bit_and info.perm 0o200) 0)

unfoldable pub new_file_storage : FileSystem → String → Result String FileStorage
new_file_storage files root = do
  reject (not (is_abs root)) storage_unavailable
  reject (not (is_directory (files.lstat root))) storage_unavailable
  ok (record { root = clean root })

unfoldable pub probe : FileSystem → FileStorage → Option String → Result String (Unit {0})
probe files storage context_error = do
  context context_error
  reject (not (is_writable (files.lstat storage.root))) storage_unavailable

module _ (files : FileSystem) where
  -- os.Remove, and the deferred one, which finds no file where the first succeeded
  abbrev pub removed : ℕ → ℕ
  removed temporary = if files.remove then temporary - 1 else temporary

  -- After CreateTemp: every return runs the deferred removal.
  unfoldable pub check_file : ℕ → Result String (Unit {0}) × ℕ
  check_file temporary = (
    reject
        (not files.chmod
          || not files.write
          || not files.close
          || not (same_bytes files.read)
          || not files.remove)
        storage_unavailable,
    removed temporary,
  )

  unfoldable pub check : Option String → ℕ → Result String (Unit {0}) × ℕ
  unfolding check_file
  check (some e) temporary = (err e, temporary)
  check none temporary =
      if files.create_temp then check_file (suc temporary) else (err storage_unavailable, temporary)

  -- Check leaves no temporary file where it succeeds, and none in any case where files can be
  -- removed.
  pub check_files_sound :
      (context_error : Option String) (temporary : ℕ)
      → ((check context_error temporary).0 ≡ ok tt → (check context_error temporary).1 ≡ temporary)
        × (files.remove ≡ true → (check context_error temporary).1 ≡ temporary)
  unfolding check check_file
  check_files_sound context_error temporary = ground arith
