-- ===== src/Appconfig.antt =====
-- internal/appconfig and internal/configfile: the configuration files of the binaries. Reading a
-- file, decoding TOML, hashing, and the parsers of `net` and `tls` are parameters.
pub mod Load
pub mod Servable
pub mod Laws
pub mod Web
use accountable.Prelude.{String, Bool, Option, List, Result}
use accountable.Go.{Duration, Parsers}
use accountable.Bootstrap.Config.{Config, FileConfig}

-- `none` is the nil slice of an absent key.
pub record ServerFile : Type 0 where
  pub listen_address : String
  pub allowed_origins : Option (List String)
  pub trusted_proxy_cidrs : Option (List String)
  pub tls_certificate : String
  pub tls_private_key : String
  pub unary_rpc_timeout : String
  pub stream_rpc_timeout : String

pub record ApiFile : Type 0 where
  pub file_config : FileConfig
  pub server : Option ServerFile

pub record Api (Network : Type 0) : Type 0 where
  pub addr : String
  pub environment : String
  pub architecture_probe : Bool
  pub allowed_origins : List String
  pub trusted_proxies : List Network
  pub tls_cert_file : String
  pub tls_key_file : String
  pub unary_rpc_deadline : Duration
  pub stream_rpc_deadline : Duration
  pub foundation : Config

-- The functions of other packages; a text on the left of a result is the error's.
pub record Libraries (Network : Type 0) : Type 0 where
  pub go : Parsers
  pub split_host_port : String → Result String (String × String)
  pub load_key_pair : String → String → Bool
  pub parse_cidr : String → Result String Network
  pub read_file : String → Result String String
  pub decode_api_file : String → Result String ApiFile
  pub sha256_hex : String → String
