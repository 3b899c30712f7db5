-- ===== src/Tests/SessionRuns.antt =====
-- An engine whose client is refused, drops, or is told to start over.
use hermitstash_sync.Prelude.{◌≡◌, refl, inl, true, false, [], ◌∷◌, arith, codes, same}
use hermitstash_sync.Engine.State.{connecting, catching_up, error}
use hermitstash_sync.StateDb.Meta.{last_seq_key, get_last_seq, get_meta}
use hermitstash_sync.Socket.Errors.{is_terminal_ws_error}
use hermitstash_sync.Socket.Client.{closes, fails, from_client, timer_fires}
use hermitstash_sync.Session.Listeners.{Setup, Session, socket_run}
use hermitstash_sync.Session.Lifecycle.{resync_begin, resync_finish, stop_begin, stop_finish}
use hermitstash_sync.Session.Refused.{IsRefused, refusal_stays_shown}
use hermitstash_sync.Session.Resync.{IsBlank, resync_finish_starts_over, stop_leaves_resync}
use hermitstash_sync.Session.Reopen.{drop_and_reopen, drop_and_reopen_catches_up}
use hermitstash_sync.Tests.Host.{idle}
use hermitstash_sync.Tests.SocketRuns.{plain_net, status_error, dialing_once}

abbrev setup : Setup
setup = record { net = plain_net; bundle_id = codes "b"; has_share_id = true }

-- The engine has applied the event of number 4.
abbrev dialing_session : Session
dialing_session = record {
  engine = record idle { db = record idle.db { sync_state = (last_seq_key, b'4' ∷ []) ∷ [] } };
  socket = dialing_once;
  chain = [];
  terminal_upgrade_reject = false;
  reconcile_queued = false;
  resync_in_flight = false;
  auth_errors = 0;
}

abbrev refused_session : Session
refused_session = record dialing_session {
  engine = record dialing_session.engine { state = error };
  socket = record dialing_once { closing = true };
  terminal_upgrade_reject = true;
}

refusal_stays_shown_example : IsRefused (
    socket_run setup
      (from_client 0 (fails (status_error 404)) ∷ from_client 0 closes ∷ timer_fires ∷ [])
      dialing_session)
unfolding is_terminal_ws_error same hermitstash_sync.Socket.Errors.ws_error_status
    hermitstash_sync.Socket.Errors.is_retryable hermitstash_sync.Socket.Errors.is_ssrf_error
    hermitstash_sync.PathFilter.starts_with
refusal_stays_shown_example =
    (refusal_stays_shown setup 0 (status_error 404) (from_client 0 closes ∷ timer_fires ∷ [])
      dialing_session (refl, (refl, tt)) refl refl refl refl).0

resync_finish_starts_over_example : IsBlank (resync_finish setup dialing_session).engine
resync_finish_starts_over_example =
    (resync_finish_starts_over setup dialing_session (λ n. refl) refl (refl, inl refl) refl).0

stop_leaves_resync_example :
    (stop_finish setup
      (resync_finish setup (stop_begin (resync_begin dialing_session)))).engine.state
    ≡ connecting
stop_leaves_resync_example =
    (stop_leaves_resync setup dialing_session (λ n. refl) refl (refl, inl refl) refl refl refl).3

drop_and_reopen_catches_up_example :
    (socket_run setup (drop_and_reopen 0 1) dialing_session).engine.state ≡ catching_up
unfolding get_last_seq get_meta same hermitstash_sync.StateDb.Decimal.parse_natural
drop_and_reopen_catches_up_example =
    (drop_and_reopen_catches_up setup 0 dialing_session (λ n. refl) (refl, refl, refl, refl) refl
      refl refl refl (omega arith)).0
