-- ===== src/Server/Readiness/Laws.antt =====
-- When the server says that it is ready.
use accountable.Prelude.{Bool, true, false, ◌≡◌, ◌≢◌, refl}
use accountable.Server.Readiness.{
  MonitorPhase, waiting, pinging, pinged, storing, stopped, serving, draining, ServerState, started,
  state, Step, tick, answered, keep, drop, store, stop, cancel, fail, drain, leave, Reaches, here,
  after,
}

-- While it serves, what the server reports is the outcome of the monitor's last stored ping.
abbrev pub Tracks : ServerState → Type 0
Tracks s = s.main ≡ serving → s.ready ≡ s.outcome

step-Tracks : {s t : ServerState} → Step s t → Tracks s → Tracks t
step-Tracks tick h = h
step-Tracks (answered healthy) h = h
step-Tracks keep h = h
step-Tracks drop h = h
step-Tracks store h = λ e. refl
step-Tracks stop h = h
step-Tracks cancel h = h
step-Tracks fail h = λ e. cc
step-Tracks drain h = λ e. cc
step-Tracks leave h = λ e. cc

-- In every state that the server reaches while it serves, it reports that it is ready exactly when
-- the last ping whose result the monitor stored had succeeded, or none was stored yet.
pub reaches-Tracks : {s : ServerState} → Reaches started s → Tracks s
reaches-Tracks here = λ e. refl
reaches-Tracks (after before step) = step-Tracks step (reaches-Tracks before)

-- No store of the monitor is pending, and none can follow.
abbrev pub store_pending : MonitorPhase → Bool
store_pending waiting = false
store_pending pinging = false
store_pending (pinged healthy) = false
store_pending (storing healthy) = true
store_pending stopped = false

pub record Drained (s : ServerState) : Type 0 where
  pub not_ready : s.ready ≡ false
  pub cancelled : s.done ≡ true
  pub not_serving : s.main ≢ serving
  pub settled : store_pending s.monitor ≡ false

step-Drained : {s t : ServerState} → Step s t → Drained s → Drained t
step-Drained tick h = record {
  not_ready = h.not_ready;
  cancelled = h.cancelled;
  not_serving = h.not_serving;
  settled = refl;
}
step-Drained (answered healthy) h = record {
  not_ready = h.not_ready;
  cancelled = h.cancelled;
  not_serving = h.not_serving;
  settled = refl;
}
step-Drained keep h = absurd (false_not_true h.cancelled)
  where
    false_not_true : ◌≢◌ {A = Bool} false true
    false_not_true e = cc
step-Drained drop h = record {
  not_ready = h.not_ready;
  cancelled = h.cancelled;
  not_serving = h.not_serving;
  settled = refl;
}
step-Drained store h = absurd (true_not_false h.settled)
  where
    true_not_false : ◌≢◌ {A = Bool} true false
    true_not_false e = cc
step-Drained stop h = record {
  not_ready = h.not_ready;
  cancelled = h.cancelled;
  not_serving = h.not_serving;
  settled = refl;
}
step-Drained cancel h = record {
  not_ready = h.not_ready;
  cancelled = refl;
  not_serving = h.not_serving;
  settled = h.settled;
}
step-Drained fail h = absurd (h.not_serving refl)
step-Drained drain h = absurd (h.not_serving refl)
step-Drained leave h = record {
  not_ready = h.not_ready;
  cancelled = refl;
  not_serving = λ e. cc;
  settled = h.settled;
}

-- From a state where the context is cancelled, readiness has been cleared by the main goroutine
-- and the monitor is not between its test of the context and its store, the server is never ready
-- again.
pub reaches-Drained : {s t : ServerState} → Reaches s t → Drained s → Drained t
reaches-Drained here h = h
reaches-Drained (after before step) h = step-Drained step (reaches-Drained before h)

-- The monitor can store a ping's success after the main goroutine has cleared readiness.
pub ready_while_draining : Reaches started (state true true true draining waiting)
ready_while_draining =
    after (after (after (after (after (after here tick) (answered true)) keep) cancel) drain) store
