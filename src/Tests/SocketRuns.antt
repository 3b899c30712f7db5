-- ===== src/Tests/SocketRuns.antt =====
-- A WebSocket client that was refused, throttled, or dropped.
use hermitstash_sync.Prelude.{ℕ, ◌≡◌, refl, true, false, none, some, [], ◌∷◌, codes, same}
use hermitstash_sync.Socket.Errors.{DialError, is_terminal_ws_error, ws_error_status, bad_status}
use hermitstash_sync.Socket.Client.{
  Net, Socket, fresh, opens, closes, fails, connects, from_client, timer_fires, run,
  upgrade_rejected,
}
use hermitstash_sync.Socket.Single.{IsSingle, run-fresh-IsSingle}
use hermitstash_sync.Socket.Shut.{told, refused_handshake_is_final}
use hermitstash_sync.Socket.Retry.{run-storm-redials, storm, redials}

-- Every dial reaches the server; no random number is drawn but 0.
abbrev pub plain_net : Net
plain_net = record {
  reconnect = true;
  is_https = false;
  raw_allow_classical = [];
  connect_error = λ n. none;
  key_info = λ c. none;
  parse_json = λ t. some t;
  random_int = λ n bound. 0;
}

abbrev pub status_error : ℕ → DialError
status_error n = record {
  code = bad_status;
  status_code = some n;
  legacy_status = none;
  message = [];
  permanent = true;
}

-- The first dial is under way.
abbrev pub dialing_once : Socket
dialing_once = record fresh {
  bundle_id = codes "b";
  since = 4;
  current = some 0;
  wired = 0 ∷ [];
  next = 1;
  dials = record { number = 0; bundle = codes "b"; from = 4 } ∷ [];
}

run-fresh-IsSingle_example : IsSingle (
    run plain_net
      (connects (codes "b") 4
        ∷ from_client 0 closes
        ∷ connects (codes "b") 5
        ∷ timer_fires
        ∷ from_client 1 opens
        ∷ [])
      fresh)
run-fresh-IsSingle_example = run-fresh-IsSingle plain_net (
    connects (codes "b") 4
    ∷ from_client 0 closes
    ∷ connects (codes "b") 5
    ∷ timer_fires
    ∷ from_client 1 opens
    ∷ [])

refused_handshake_is_final_example :
    told (
      run plain_net
        (from_client 0 (fails (status_error 404)) ∷ from_client 0 closes ∷ timer_fires ∷ [])
        dialing_once)
    ≡ upgrade_rejected 404 ∷ []
unfolding is_terminal_ws_error same ws_error_status hermitstash_sync.Socket.Errors.is_retryable
    hermitstash_sync.Socket.Errors.is_ssrf_error hermitstash_sync.PathFilter.starts_with
refused_handshake_is_final_example =
    (refused_handshake_is_final plain_net 0 (status_error 404)
      (from_client 0 closes ∷ timer_fires ∷ []) dialing_once (refl, (refl, tt)) refl refl refl).2

run-storm-redials_example :
    (run plain_net (storm 0 1 (status_error 503 ∷ status_error 429 ∷ [])) dialing_once).dials
    ≡ redials (codes "b") 4 1 (status_error 503 ∷ status_error 429 ∷ []) dialing_once.dials
unfolding is_terminal_ws_error same ws_error_status hermitstash_sync.Socket.Errors.is_retryable
    hermitstash_sync.Socket.Errors.is_ssrf_error hermitstash_sync.PathFilter.starts_with
run-storm-redials_example =
    (run-storm-redials plain_net (status_error 503 ∷ status_error 429 ∷ []) 0 dialing_once
      (λ n. refl) (refl, (refl, tt)) (refl, refl, refl, refl)).0
