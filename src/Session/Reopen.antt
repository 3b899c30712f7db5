-- ===== src/Session/Reopen.antt =====
-- lib/sync-engine.js: a connection that drops and comes back.
use hermitstash_sync.Prelude.{ℕ, false, ◌&&◌, List, [], ◌∷◌, ◌++◌, ==_iff, ◌≡◌, arith, ◌<◌}
use hermitstash_sync.Engine.State.{catching_up, is_disconnected}
use hermitstash_sync.Engine.Cursor.{last_seq}
use hermitstash_sync.Socket.Floor.{assert_negotiated_group_pqc}
use hermitstash_sync.Socket.Client.{
  Net, schedule_reconnect, dial, on_open, on_close, on_timer, opens, closes, Input, from_client,
  timer_fires, step,
}
use hermitstash_sync.Socket.Retry.{CanDial, IsLive}
use hermitstash_sync.Session.Listeners.{
  Setup, Session, recover_task, rescan_task, socket_step, socket_run, hear, hear_all, on_ws_open,
  on_ws_close,
}

-- The connection of the client drops, the timer ends, and the next client's handshake completes.
abbrev pub drop_and_reopen : ℕ → ℕ → List Input
drop_and_reopen c c' = from_client c closes ∷ timer_fires ∷ from_client c' opens ∷ []

-- The next client's handshake is at the post-quantum floor, or has no TLS.
abbrev pub IsAtFloor : Net → ℕ → Type 0
IsAtFloor net c =
    (net.is_https && assert_negotiated_group_pqc net.raw_allow_classical (net.key_info c)) ≡ false

-- An engine with a cursor whose connection drops is back in catch-up, asking for the events from the
-- sequence number that its client last had, once the next client has opened: the unfinished transfers
-- and a walk of the folder are queued behind what was there, and the marks of the old session are gone.
pub drop_and_reopen_catches_up :
    (setup : Setup) (c : ℕ) (s : Session)
    → CanDial setup.net
    → IsLive setup.net s.socket c
    → IsAtFloor setup.net s.socket.next
    → s.engine.stopped ≡ false
    → is_disconnected s.engine.state ≡ false
    → s.terminal_upgrade_reject ≡ false
    → 0 < last_seq s.engine
    → let s' = socket_run setup (drop_and_reopen c s.socket.next) s in
      (s'.engine.state ≡ catching_up)
      × (s'.engine.caught_up ≡ false)
      × (s'.engine.lowest_unapplied ≡ 0)
      × (s'.engine.db ≡ s.engine.db)
      × (s'.chain ≡ (s.chain ++ (recover_task ∷ [])) ++ (rescan_task ∷ []))
      × (s'.socket.dials
          ≡ record { number = s.socket.next; bundle = s.socket.bundle_id; from = s.socket.since }
            ∷ s.socket.dials)
unfolding socket_run socket_step step on_close schedule_reconnect on_timer dial on_open hear_all
    hear on_ws_close on_ws_open
drop_and_reopen_catches_up setup c s can (on, going, hc, hw) floor running up clear cursor =
    ground (
      arith,
      can s.socket.next,
      on,
      going,
      hw,
      floor,
      running,
      up,
      clear,
      cursor,
      ==_iff c c,
      ==_iff s.socket.next s.socket.next,
    )
