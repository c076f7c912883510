-- ===== src/Server/Readiness.antt =====
-- serveWithDependencies, monitorDependencies and bootstrapAndServe of cmd/api/serve.go. The server's
-- main goroutine and its monitor are a step relation on their shared state.
pub mod Laws
use accountable.Prelude.{
  ℕ, suc, ◌+◌, ◌-◌, Bool, true, false, ◌≡◌, Option, none, some, Result, ok, err,
}

-- monitorDependencies: waiting for a tick, pinging, between the ping and the test of the context,
-- between that test and the store of the result, and returned.
pub data MonitorPhase : Type 0 where
  waiting : MonitorPhase
  pinging : MonitorPhase
  pinged : Bool → MonitorPhase
  storing : Bool → MonitorPhase
  stopped : MonitorPhase

-- serveWithDependencies: in its select, past its store of `false`, and returned.
pub data MainPhase : Type 0 where
  serving : MainPhase
  draining : MainPhase
  returned : MainPhase

-- `done` is that the monitor's context is cancelled, `outcome` the result that the monitor stored
-- last, or `true` from the start.
pub record ServerState : Type 0 where
  pub ready : Bool
  pub done : Bool
  pub outcome : Bool
  pub main : MainPhase
  pub monitor : MonitorPhase

abbrev pub started : ServerState
started = record { ready = true; done = false; outcome = true; main = serving; monitor = waiting }

module _ (r d o : Bool) (m : MainPhase) (p : MonitorPhase) where
  abbrev pub state : ServerState
  state = record { ready = r; done = d; outcome = o; main = m; monitor = p }

pub data Step : ServerState → ServerState → Type 0 where
  tick : {r d o : Bool} {m : MainPhase} → Step (state r d o m waiting) (state r d o m pinging)
  answered :
      {r d o : Bool} {m : MainPhase} (healthy : Bool)
      → Step (state r d o m pinging) (state r d o m (pinged healthy))
  keep :
      {r o : Bool} {m : MainPhase} {healthy : Bool}
      → Step (state r false o m (pinged healthy)) (state r false o m (storing healthy))
  drop :
      {r o : Bool} {m : MainPhase} {healthy : Bool}
      → Step (state r true o m (pinged healthy)) (state r true o m stopped)
  store :
      {r d o : Bool} {m : MainPhase} {healthy : Bool}
      → Step (state r d o m (storing healthy)) (state healthy d healthy m waiting)
  stop : {r o : Bool} {m : MainPhase} → Step (state r true o m waiting) (state r true o m stopped)
  cancel :
      {r d o : Bool} {m : MainPhase} {p : MonitorPhase}
      → Step (state r d o m p) (state r true o m p)
  fail :
      {r d o : Bool} {p : MonitorPhase} → Step (state r d o serving p) (state false d o draining p)
  drain :
      {r o : Bool} {p : MonitorPhase}
      → Step (state r true o serving p) (state false true o draining p)
  leave :
      {r d o : Bool} {p : MonitorPhase} → Step (state r d o draining p) (state r true o returned p)

pub data Reaches : ServerState → ServerState → Type 0 where
  here : {s : ServerState} → Reaches s s
  after : {s middle last : ServerState} → Reaches s middle → Step middle last → Reaches s last

-- bootstrapAndServe: the dependencies that are open, which the deferred Close lowers.
unfoldable pub bootstrap_and_serve :
    {Dependency E : Type 0}
    → Result E Dependency
    → (Dependency → Result E (Unit {0}))
    → ℕ
    → Result E (Unit {0}) × ℕ
bootstrap_and_serve (err e) serve opened = (err e, opened)
bootstrap_and_serve (ok dependencies) serve opened = (serve dependencies, suc opened - 1)
