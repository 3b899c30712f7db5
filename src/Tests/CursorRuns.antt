-- ===== src/Tests/CursorRuns.antt =====
-- The cursor's theorems on a concrete engine.
use hermitstash_sync.Prelude.{◌<◌, refl, [], ◌∷◌, arith}
use hermitstash_sync.StateDb.Meta.{get_last_seq, get_meta}
use hermitstash_sync.Engine.Cursor.{last_seq}
use hermitstash_sync.Engine.Cursor.Gap.{applied, failed, session, session_below_gap}
use hermitstash_sync.Tests.Host.{linux, idle}

-- Event 5 failed; 7 was applied and 9 failed after it.
session_below_gap_example : last_seq (session (failed 5 ∷ applied linux 7 ∷ failed 9 ∷ []) idle) < 5
unfolding get_last_seq get_meta
session_below_gap_example =
    session_below_gap 5 (applied linux 7 ∷ failed 9 ∷ []) idle refl (omega arith) (omega arith, tt)
