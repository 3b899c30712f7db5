-- ===== src/Engine/Inbound.antt =====
-- lib/sync-engine.js: the dispatch of server events. An event is one step: the apply chain runs the
-- handlers one at a time.
pub mod Gate
mod Frame
pub mod Fetch
pub mod Added
pub mod AddedLaws
pub mod Delivery
pub mod Tracked
pub mod Removed
pub mod RemovedLaws
pub mod Renamed
pub mod RenamedLaws
pub mod Fallback
pub mod Balanced
pub mod Forward
use hermitstash_sync.Prelude.{
  ℕ, zero, suc, ◌+◌, ◌-◌, ◌*◌, ◌≤◌, ◌<◌, min, max, ◌≡◌, ◌≢◌, ◌↔◌, ◌⊎◌, inl, inr, refl, sym, ap,
  subst, ◌∙◌, Bool, true, false, not, ◌&&◌, ◌||◌, Option, none, some, List, [], ◌∷◌, ◌++◌, map,
  arith, ltb, leb, ◌==◌, ==_iff, if◌then◌else◌, Bool-cases, Option-cases, is_some, or_else,
  or_number, same_value, length, any, keep_if, All, Text, codes, same, same_iff, same_refl,
  is_empty, includes,
}
use hermitstash_sync.Engine.State.{Engine, World}
use hermitstash_sync.Engine.Cursor.{handle_heartbeat}
use Gate.{FileEvent}
use Added.{handle_file_added, handle_file_replaced}
use Removed.{handle_file_removed}
use Renamed.{handle_file_renamed}

-- The messages of MSG in lib/constants.js that carry file changes or the cursor. The rotation of the
-- certificate authority is not modelled, and `other` is a type that the switch does not know.
pub data Message : Type 0 where
  file_added : FileEvent → Message
  file_replaced : FileEvent → Message
  file_removed : Text → ℕ → Message
  file_renamed : Text → FileEvent → Message
  heartbeat : ℕ → Message
  other : Message

-- The `switch` of `_applyServerMessage`.
unfoldable pub dispatch : World → Message → Engine → Engine
dispatch w (file_added msg) e = handle_file_added w msg none e
dispatch w (file_replaced msg) e = handle_file_replaced w msg e
dispatch w (file_removed path seq) e = handle_file_removed w path seq e
dispatch w (file_renamed old_path msg) e = handle_file_renamed w old_path msg e
dispatch w (heartbeat seq) e = handle_heartbeat w seq e
dispatch w other e = e

-- `_applyServerMessage`
unfoldable pub apply_server_message : World → Message → Engine → Engine
apply_server_message w msg e = if e.stopped then e else dispatch w msg e
