-- ===== src/Tests/RecoverRuns.antt =====
-- The sweeps on a row in ERROR whose file was edited.
use hermitstash_sync.Prelude.{some}
use hermitstash_sync.StateDb.Rows.{Row, error as error_row}
use hermitstash_sync.Tests.Host.{notes_row}

-- The server has the digest 7, which is what it sends.
abbrev broken_row : Row
broken_row = record notes_row { server_checksum = some 7; size = some 30; status = error_row }
