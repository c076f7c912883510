-- ===== src/Appconfig/Servable.antt =====
-- What a server section that parseAPI of internal/appconfig/api.go accepts is known to be.
use mathlib.Core.Path.{subst}
use accountable.Prelude.{
  String, true, false, not, ◌&&◌, ◌≡◌, ◌≢◌, ◌⊎◌, some, List, [], ◌∷◌, ok, ◌==◌, All, arith, eq_iff,
  >>=-eq-ok, reject-eq-ok, is_ok,
}
use accountable.Go.{Parsers, IsPositive, int_ltb}
use accountable.Text.Paths.{is_abs}
use accountable.Bootstrap.Config.{Config}
use accountable.Bootstrap.Config.Laws.{parse_positive_duration-IsPositive}
use accountable.Appconfig.{ServerFile, Api, Libraries}
use accountable.Appconfig.Load.{
  http_write_timeout, is_origin, is_https, validate_allowed_origins, parse_cidrs, check_tls,
  parse_server, positive_duration,
}

-- An origin without credentials, path, query or fragment; in production an HTTPS one.
abbrev pub AllowedOrigin : Parsers → String → String → Type 0
AllowedOrigin go environment value =
    (is_origin (go.parse_url value) ≡ true)
    × (environment ≡ "production" → is_https (go.parse_url value) ≡ true)

validate_allowed_origins_sound :
    (go : Parsers) (environment : String) (values : List String)
    → validate_allowed_origins go environment values ≡ ok tt
    → All (AllowedOrigin go environment) values
unfolding validate_allowed_origins
validate_allowed_origins_sound go environment [] h = tt
validate_allowed_origins_sound go environment (value ∷ values) h =
    let (origin, h) = reject-eq-ok (not (is_origin (go.parse_url value))) _ h in
    let (https, h) =
      reject-eq-ok (environment == "production" && not (is_https (go.parse_url value))) _ h in
    (
      (ground arith, λ e. ground (arith, eq_iff environment "production")),
      validate_allowed_origins_sound go environment values h,
    )

module _ {Network : Type 0} (lib : Libraries Network) where
  -- The proxies' networks are the parsed entries, one for one and in order.
  abbrev pub Parsed : List String → List Network → Type 0
  Parsed [] [] = Unit
  Parsed (value ∷ values) (network ∷ networks) =
      (lib.parse_cidr value ≡ ok network) × Parsed values networks
  Parsed _ _ = ⊥

  parse_cidrs_sound :
      (values : List String) (networks : List Network)
      → parse_cidrs lib values ≡ ok networks
      → Parsed values networks
  unfolding parse_cidrs
  parse_cidrs_sound [] [] h = tt
  parse_cidrs_sound [] (n ∷ ns) h = cc
  parse_cidrs_sound (v ∷ vs) networks h =
      let (network, here, h) = >>=-eq-ok (lib.parse_cidr v) _ h in
      let (rest, later, h) = >>=-eq-ok (parse_cidrs lib vs) _ h in
      let e : network ∷ rest ≡ networks = ground arith in
      subst (Parsed (v ∷ vs)) e (here, parse_cidrs_sound vs rest later)

  -- No TLS file, or two absolute paths of a pair that loads.
  abbrev pub TlsFiles : String → String → Type 0
  TlsFiles certificate key =
      ((certificate ≡ "") × (key ≡ ""))
      ⊎ ((is_abs certificate ≡ true)
          × (is_abs key ≡ true)
          × (lib.load_key_pair certificate key ≡ true))

  check_tls_sound :
      (server : ServerFile)
      → check_tls lib server ≡ ok tt
      → TlsFiles server.tls_certificate server.tls_private_key
  unfolding check_tls
  check_tls_sound server h =
      ground (arith, eq_iff server.tls_certificate "", eq_iff server.tls_private_key "")

  -- A configuration of the API that can be served.
  pub record Servable (server : ServerFile) (foundation : Config) (c : Api Network) : Type 0 where
    pub addr : (c.addr ≢ "") × (is_ok (lib.split_host_port c.addr) ≡ true)
    pub origins : All (AllowedOrigin lib.go foundation.environment) c.allowed_origins
    pub tls : TlsFiles c.tls_cert_file c.tls_key_file
    pub unary :
        IsPositive c.unary_rpc_deadline × (int_ltb c.unary_rpc_deadline http_write_timeout ≡ true)
    pub stream :
        IsPositive c.stream_rpc_deadline × (int_ltb c.stream_rpc_deadline http_write_timeout ≡ true)
    pub proxies :
        (cidrs : List String) × (server.trusted_proxy_cidrs ≡ some cidrs)
        × Parsed cidrs c.trusted_proxies
    pub same : c.foundation ≡ foundation

  -- The steps of a successful parse_server.
  record Stages (server : ServerFile) (foundation : Config) (c : Api Network) : Type 0 where
    cidrs : List String
    address : (server.listen_address == "") ≡ false
    split : is_ok (lib.split_host_port server.listen_address) ≡ true
    allowed : server.allowed_origins ≡ some c.allowed_origins
    origins : validate_allowed_origins lib.go foundation.environment c.allowed_origins ≡ ok tt
    given : server.trusted_proxy_cidrs ≡ some cidrs
    tls : check_tls lib server ≡ ok tt
    unary :
        positive_duration lib.go "server.unary_rpc_timeout" server.unary_rpc_timeout
        ≡ ok c.unary_rpc_deadline
    stream :
        positive_duration lib.go "server.stream_rpc_timeout" server.stream_rpc_timeout
        ≡ ok c.stream_rpc_deadline
    unary_short : int_ltb c.unary_rpc_deadline http_write_timeout ≡ true
    stream_short : int_ltb c.stream_rpc_deadline http_write_timeout ≡ true
    trusted : parse_cidrs lib cidrs ≡ ok c.trusted_proxies
    addr : c.addr ≡ server.listen_address
    cert : c.tls_cert_file ≡ server.tls_certificate
    key : c.tls_key_file ≡ server.tls_private_key
    same : c.foundation ≡ foundation

  parse_server-Stages :
      (server : ServerFile) (foundation : Config) (c : Api Network)
      → parse_server lib server foundation ≡ ok c
      → Stages server foundation c
  unfolding parse_server
  parse_server-Stages server foundation c h = ground arith

  pub parse_server-Servable :
      (server : ServerFile) (foundation : Config) (c : Api Network)
      → parse_server lib server foundation ≡ ok c
      → Servable server foundation c
  parse_server-Servable server foundation c h =
      let stages = parse_server-Stages server foundation c h in
      record {
        addr = (ground (arith, stages.address, stages.addr, eq_iff server.listen_address ""), cc);
        origins =
            validate_allowed_origins_sound lib.go foundation.environment c.allowed_origins
              stages.origins;
        tls = rw (stages.cert, stages.key) (check_tls_sound server stages.tls);
        unary = (
          (parse_positive_duration-IsPositive lib.go _ server.unary_rpc_timeout _ stages.unary).0,
          stages.unary_short,
        );
        stream = (
          (parse_positive_duration-IsPositive lib.go _ server.stream_rpc_timeout _ stages.stream).0,
          stages.stream_short,
        );
        proxies = (
          stages.cidrs,
          stages.given,
          parse_cidrs_sound stages.cidrs c.trusted_proxies stages.trusted,
        );
        same = stages.same;
      }
