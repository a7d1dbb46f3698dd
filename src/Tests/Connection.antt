-- ===== src/Tests/Connection.antt =====
-- Runs of src/connection/connection.js: three endpoints, two attempts.
use rabbitmq.Base.{◌+◌, ◌≤◌, ◌≡◌, refl, true, false, none, some, List, [], ◌∷◌}
use rabbitmq.Connection.Machine.{
  disconnected, connecting, connected, failed, Connection, Event, connect, dial_succeeds,
  dial_fails, discard_settles, timer_fires, disconnect, step, run, init, dialing,
}
use rabbitmq.Connection.Machine.Invariant.{Inv, reachable-Inv, init-Inv}
use rabbitmq.Connection.Machine.Backoff.{timer_attempts, timer_attempts-le-budget}
use rabbitmq.Connection.Machine.Shutdown.{IsStopped, disconnect-IsStopped}

abbrev fresh : Connection
fresh = record {
  endpoints = 10 ∷ 11 ∷ 12 ∷ [];
  reconnect_interval = 100;
  max_reconnect_interval = 500;
  max_reconnect_attempts = some 2;
  connection = none;
  is_watched = false;
  orphans = 0;
  reconnect_timeout = none;
  reconnect_attempt = 0;
  connection_state = disconnected;
  current_endpoint_index = 0;
  is_shutting_down = false;
  is_reconnecting = false;
  connect_promise = none;
  timer_waiters = 0;
  closing = 0;
}

abbrev dialling : Connection
dialling = record fresh {
  connection_state = connecting;
  connect_promise = some (dialing 0);
  current_endpoint_index = 2;
}

abbrev live : Connection
live = record fresh { connection = some 7; is_watched = true; connection_state = connected }

abbrev outage : List Event
outage =
    connect ∷ dial_fails ∷ dial_fails ∷ dial_fails ∷ timer_fires ∷ dial_fails ∷ dial_fails
    ∷ dial_fails ∷ timer_fires ∷ dial_fails ∷ dial_fails ∷ dial_fails ∷ timer_fires ∷ []

init-fresh : init (10 ∷ 11 ∷ 12 ∷ []) 100 500 (some 2) ≡ some fresh
unfolding init
init-fresh = refl

run-outage : (run fresh outage).connection_state ≡ failed
unfolding run
run-outage = refl

attempts_outage : timer_attempts fresh outage ≡ 2
unfolding timer_attempts step
attempts_outage = refl

reachable-Inv_example : Inv (run fresh outage)
reachable-Inv_example = reachable-Inv (10 ∷ 11 ∷ 12 ∷ []) 100 500 (some 2) fresh outage init-fresh

timer_attempts-le-budget_example : 0 + timer_attempts fresh outage ≤ 2
timer_attempts-le-budget_example =
    timer_attempts-le-budget fresh outage 2
      (init-Inv (10 ∷ 11 ∷ 12 ∷ []) 100 500 (some 2) fresh init-fresh) refl tt

disconnect-IsStopped_example :
    IsStopped (run dialling (disconnect ∷ dial_succeeds 9 ∷ discard_settles ∷ timer_fires ∷ []))
disconnect-IsStopped_example =
    disconnect-IsStopped dialling (dial_succeeds 9 ∷ discard_settles ∷ timer_fires ∷ []) tt
