-- ===== src/Engine/Cursor/CatchUp.antt =====
-- The end of catch-up: when the engine calls itself synced, and when it redials.
use hermitstash_sync.Prelude.{ℕ, ◌≤◌, ◌<◌, ◌≡◌, ◌⊎◌, refl, true, false, arith, same}
use hermitstash_sync.StateDb.Meta.{get_last_seq-set_meta, last_seq_key, last_sync_time_key}
use hermitstash_sync.Engine.State.{Engine, World, catching_up, synced}
use hermitstash_sync.Engine.Cursor.{
  last_seq, handle_heartbeat, maybe_finish_catch_up, should_redial, maybe_recover_catch_up_wedge,
  unfinished,
}

sync_time_apart : same last_sync_time_key last_seq_key ≡ false
unfolding same
sync_time_apart = refl

-- A heartbeat takes the engine out of catch-up only into SYNCED, with no work outstanding, and only
-- when this heartbeat or an earlier one carried no more than the cursor; the cursor stays.
handle_heartbeat_honest :
    (w : World) (seq : ℕ) (e : Engine)
    → e.state ≡ catching_up
    → (last_seq (handle_heartbeat w seq e) ≡ last_seq e)
      × (((handle_heartbeat w seq e).state ≡ catching_up)
          ⊎ (((handle_heartbeat w seq e).state ≡ synced)
              × (e.catch_up_pending ≡ 0)
              × (e.active_downloads ≡ 0)
              × ((e.caught_up ≡ true) ⊎ (seq ≤ last_seq e))))
unfolding handle_heartbeat maybe_finish_catch_up
handle_heartbeat_honest w seq e h = (
  ground (arith, get_last_seq-set_meta last_sync_time_key w.now e.db.sync_state sync_time_apart),
  ground arith,
)

-- The engine redials only out of catch-up, with a recovery that landed, nothing outstanding, no row
-- left to download or in ERROR, and a tip beyond the cursor that no failed event holds it from; it
-- asks from the cursor, and touches neither the tables nor the disk.
redial_is_safe :
    (landed : ℕ) (e : Engine)
    → should_redial landed e ≡ true
    → let e' = maybe_recover_catch_up_wedge landed e in
      (e.stopped ≡ false)
      × (e.state ≡ catching_up)
      × (0 < landed)
      × (e.catch_up_pending ≡ 0)
      × (unfinished e ≡ 0)
      × (last_seq e < e.catch_up_tip)
      × (e.lowest_unapplied ≤ last_seq e)
      × (e'.ws_since ≡ last_seq e)
      × (e'.db ≡ e.db)
unfolding should_redial maybe_recover_catch_up_wedge
redial_is_safe landed e h = ground arith
