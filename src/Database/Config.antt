-- ===== src/Database/Config.antt =====
-- internal/platform/database/config.go
use accountable.Prelude.{ℕ, String}
use accountable.Go.{ℤ, Duration}

abbrev pub tls_disable : String
tls_disable = "disable"

abbrev pub tls_verify_full : String
tls_verify_full = "verify-full"

pub record DatabaseConfig : Type 0 where
  pub host : String
  pub port : ℕ  -- uint16
  pub name : String
  pub user : String
  pub role : String
  pub password_ref : String
  pub tls_mode : String
  pub tls_root_ca_file : String
  pub connect_timeout : Duration
  pub statement_timeout : Duration
  pub health_check_interval : Duration
  pub max_connections : ℤ  -- int32
  pub timezone : String
