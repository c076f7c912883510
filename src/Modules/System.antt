-- ===== src/Modules/System.antt =====
-- internal/modules/system/system.go
use accountable.Prelude.{String}
use accountable.Go.{ℤ}
use accountable.Server.Interceptors.{Context}

pub record SystemServer : Type 0 where
  pub release_id : String

pub record RuntimeResponse : Type 0 where
  pub release_id : String
  pub server_time : ℤ
  pub request_id : String

-- `now` is the reading of the server's clock.
unfoldable pub get_runtime : SystemServer → ℤ → Context → RuntimeResponse
get_runtime server now context = record {
  release_id = server.release_id;
  server_time = now;
  request_id = context.identity.request_id;
}
