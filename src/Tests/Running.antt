-- ===== src/Tests/Running.antt =====
-- A listener with two connections, and the artifact of a web configuration.
use accountable.Prelude.{
  String, ℕ, ◌+◌, ◌≤◌, Bool, false, ◌≡◌, ◌≢◌, refl, none, some, ok, err, ◌⊎◌, List, [], ◌∷◌, ◌==◌,
  if◌then◌else◌,
}
use accountable.Server.LimitListener.{
  max_connections, Listener, acquire, accept_succeeded, is_closed, open_count, Step, Reachable,
  connections_bounded, Closed, close-Closed,
}
use accountable.Webconfig.{Files, Calls, write_artifact}
use accountable.Webconfig.Laws.{FailedWith, write_artifact-atomic}

abbrev listener : ℕ → ℕ → List Bool → Listener
listener sem accepting connections = record {
  sem = sem;
  accepting = accepting;
  connections = connections;
}

-- Two accepts, the second still waiting for its connection, after the first connection came in.
one_open : Reachable max_connections (listener 2 1 (false ∷ []))
unfolding acquire accept_succeeded
one_open =
    Reachable.step
      (Reachable.step (Reachable.step Reachable.start (Step.acquires {m = listener 1 1 []} refl))
        (Step.acquires {m = listener 2 2 []} refl))
      (Step.succeeds refl)

connections_bounded_example :
    (1 + open_count (false ∷ []) ≡ 2) × (1 + open_count (false ∷ []) ≤ max_connections)
connections_bounded_example =
    connections_bounded max_connections (listener 2 1 (false ∷ [])) one_open

first_is_open : is_closed 0 (false ∷ []) ≡ some false
unfolding is_closed
first_is_open = refl

close-Closed_example : Closed (listener 2 1 (false ∷ [])) 0 false
close-Closed_example =
    close-Closed max_connections (listener 2 1 (false ∷ [])) one_open 0 false first_is_open

abbrev calls : Calls
calls = record {
  temporary = "/out/.runtime-config-1";
  partial = "{";
  create_error = none;
  write_error = some "no space left on device";
  chmod_error = none;
  close_error = none;
  rename_error = none;
  remove_error = some "permission denied";
}

abbrev files : Files
files x = if x == "/out/config.json" then some (record { content = "{}"; mode = 0o644 }) else none

temporary_free : files calls.temporary ≡ none
temporary_free = refl

other_name : "/out/config.json" ≢ calls.temporary
other_name e = cc

write_artifact-atomic_example :
    let (after, result) = write_artifact calls "/out/config.json" "{1}" files in
    ((result ≡ ok tt)
      × (after "/out/.runtime-config-1" ≡ (
          if "/out/.runtime-config-1" == "/out/config.json"
          then some (record { content = "{1}"; mode = 0o644 })
          else files "/out/.runtime-config-1")))
    ⊎ ((e : String) × (result ≡ err e)
        × FailedWith calls e
        × ((after "/out/.runtime-config-1" ≡ files "/out/.runtime-config-1")
            ⊎ (("/out/.runtime-config-1" ≡ calls.temporary) × (calls.remove_error ≢ none))))
write_artifact-atomic_example =
    write_artifact-atomic calls "/out/config.json" "{1}" files temporary_free other_name
      "/out/.runtime-config-1"
