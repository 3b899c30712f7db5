-- ===== src/Engine/Cursor.antt =====
-- lib/sync-engine.js: the sequence cursor, the end of catch-up, and the engine's state.
pub mod Gap
pub mod CatchUp
use hermitstash_sync.Prelude.{
  ℕ, ◌+◌, ◌-◌, Bool, true, false, not, ◌&&◌, ◌||◌, Option, none, some, List, [], ◌∷◌, ◌++◌,
  if◌then◌else◌, ltb, leb, ◌==◌, length,
}
use hermitstash_sync.StateDb.Rows.{get_files_by_status, pending_download, error}
use hermitstash_sync.StateDb.Meta.{Meta, get_last_seq, set_last_seq, set_meta, last_sync_time_key}
use hermitstash_sync.Engine.State.{
  Engine, World, SyncState, synced, connecting, is_catching_up, is_disconnected, Request, ack,
}

-- `stateDb.getLastSeq()`
abbrev pub last_seq : Engine → ℕ
last_seq e = get_last_seq e.db.sync_state

abbrev pub set_sync_state : Meta → Engine → Engine
set_sync_state meta e = record e { db = record e.db { sync_state = meta } }

-- `_setState`
abbrev pub set_state : SyncState → Engine → Engine
set_state s e = record e { state = s }

-- `_maybeMarkSynced`; `uploads_busy` is whether the upload pool has a task in flight or queued at the
-- call.
unfoldable pub maybe_mark_synced : Bool → Engine → Engine
maybe_mark_synced uploads_busy e =
    if is_disconnected e.state
    then e
    else if is_catching_up e.state
    then e
    else if not uploads_busy && not (ltb 0 e.active_downloads)
    then set_state synced e
    else e

-- `_maybeFinishCatchUp`
unfoldable pub maybe_finish_catch_up : World → Engine → Engine
maybe_finish_catch_up w e =
    if not (is_catching_up e.state)
    then e
    else if not e.caught_up
    then e
    else if ltb 0 e.catch_up_pending || ltb 0 e.active_downloads
    then e
    else set_sync_state (set_meta last_sync_time_key w.now e.db.sync_state)
        (record e { caught_up = false; state = synced })

-- `_noteUnappliedSeq`
unfoldable pub note_unapplied_seq : ℕ → Engine → Engine
note_unapplied_seq seq e =
    if ltb 0 seq && (e.lowest_unapplied == 0 || ltb seq e.lowest_unapplied)
    then record e { lowest_unapplied = seq }
    else e

-- The watermark after the event of `seq` was applied, and the cap that it puts on the cursor.
abbrev pub cleared : ℕ → ℕ → ℕ
cleared seq lowest = if ltb 0 lowest && seq == lowest then 0 else lowest

abbrev pub capped : ℕ → ℕ → ℕ
capped seq lowest = if ltb 0 lowest && leb lowest seq then lowest - 1 else seq

abbrev pub advance : ℕ → Meta → Meta
advance target meta =
    if ltb (get_last_seq meta) target then set_last_seq (some target) meta else meta

-- `_updateSeq`
unfoldable pub update_seq : World → ℕ → Engine → Engine
update_seq w seq e =
    let lowest = cleared seq e.lowest_unapplied in
    let meta = advance (capped seq lowest) e.db.sync_state in
    let meta' = set_meta last_sync_time_key w.now meta in
    if e.resyncing then e else record e {
      lowest_unapplied = lowest;
      db = record e.db { sync_state = meta' };
      ws_since = if e.has_ws then get_last_seq meta' else e.ws_since;
    }

-- What a heartbeat records while the engine catches up.
abbrev pub note_tip : ℕ → Engine → Engine
note_tip seq e =
    if leb seq (last_seq e) && (not (seq == 0) || last_seq e == 0)
    then record e { caught_up = true }
    else if ltb (last_seq e) seq
    then record e { catch_up_tip = seq }
    else e

abbrev send_ack : ℕ → Engine → Engine
send_ack seq e = if e.has_ws then record e { sent = e.sent ++ (ack seq ∷ []) } else e

-- `_handleHeartbeat`
unfoldable pub handle_heartbeat : World → ℕ → Engine → Engine
handle_heartbeat w seq e =
    send_ack seq (if is_catching_up e.state then maybe_finish_catch_up w (note_tip seq e) else e)

abbrev pub unfinished : Engine → ℕ
unfinished e =
    length (get_files_by_status pending_download e.db.files)
    + length (get_files_by_status error e.db.files)

-- The tests of `_maybeRecoverCatchUpWedge`: whether the socket is redialled.
unfoldable pub should_redial : ℕ → Engine → Bool
should_redial landed e =
    not (e.stopped || e.resyncing || not e.has_ws)
    && is_catching_up e.state
    && ltb 0 landed
    && not e.caught_up
    && not (ltb 0 e.catch_up_pending || ltb 0 e.active_downloads)
    && ltb (last_seq e) e.catch_up_tip
    && not (ltb 0 e.lowest_unapplied && ltb (last_seq e) e.lowest_unapplied)
    && not (ltb 0 (unfinished e))

-- `_maybeRecoverCatchUpWedge`: close and connect with the cursor unchanged.
unfoldable pub maybe_recover_catch_up_wedge : ℕ → Engine → Engine
maybe_recover_catch_up_wedge landed e =
    if should_redial landed e then record e { state = connecting; ws_since = last_seq e } else e
