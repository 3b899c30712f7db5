-- ===== src/Lib.antt =====
-- HermitStash Sync: the client that mirrors a folder with a server.
--
-- The daemon (lib/daemon.js) runs one SyncEngine (lib/sync-engine.js). The engine takes file events and
-- heartbeats from a WebSocket (lib/ws-client.js), applies them to the sync folder through the HTTP
-- client (lib/http-client.js), and keeps what it knows of every file, with the number of the last event
-- applied, in an SQLite database (lib/state-db.js). lib/path-filter.js decides which paths take part.
-- The number is the cursor: a reconnect asks the server for every event after it, so it must not
-- pass an event whose effect is neither here nor on record.
--
-- Files and what they model:
-- - StateDb (lib/state-db.js): StateDb/Rows the table `files` and its statements, `write_row` for
--   upsertFile, `rename_file` for renameFile with its transaction; StateDb/Meta the table `sync_state`,
--   getMeta, setMeta, getLastSeq, setLastSeq and clearAll; StateDb/Decimal how a number is stored as
--   text; StateDb/Laws and StateDb/Unique what reads see after writes, and the primary key.
-- - PathFilter (lib/path-filter.js): `match_pattern`, `classify_folded`, `match_any`, `should_sync` for
--   _matchPattern, classifyPattern, matchAny and shouldSync; PathFilter/Slices the string methods they
--   use. PathFilter/Meaning gives the grammar's independent meaning on path segments, PathFilter/Scope
--   the scope that the two lists describe.
-- - Transfer (lib/http-client.js): `download_file` for downloadFile, from the response to the file that
--   is moved into place or the error.
-- - Engine/State: the fields of SyncEngine as the record Engine, and as the record World the
--   configuration, the vendored framework, and the answers of the file system and the server, of which
--   every step is given its own.
-- - Engine/Suppress, Engine/Cursor: _suppressPath to _isSuppressed, _updateSeq, _noteUnappliedSeq,
--   _handleHeartbeat, _maybeFinishCatchUp, _maybeMarkSynced and _maybeRecoverCatchUpWedge, with theorems
--   in Engine/Cursor/Gap and Engine/Cursor/CatchUp.
-- - Engine/Download: _downloadFile with its locked body. Engine/Conflict: _maybeSaveConflictCopy and
--   _unlinkWithRetry.
-- - Engine/Inbound: _applyServerMessage, with a module for each handler: Added (_handleFileAdded,
--   _handleFileReplaced, _reconcileCaseRename), Removed (_handleFileRemoved, _handleFileRemovedNoSeq),
--   Renamed (_handleFileRenamed), and Gate for the tests and brackets they share.
-- - Engine/Inbound/Fetch, AddedLaws, Delivery, Tracked, RemovedLaws, RenamedLaws and Fallback prove what
--   the handlers keep and leave; Engine/Inbound/Balanced and Engine/Inbound/Forward hold for every event.
-- - Engine/Local: Delete for _handleLocalDelete, its timer and _executeDelete, Upload for _uploadFile,
--   Rename for the detection of renames and _handleLocalRename, Modify for _onLocalChange and
--   _handleLocalModify with its locked body.
-- - Engine/Recover: the sweep of unfinished downloads of _recoverPending, and _recoverPendingDeletes;
--   Engine/Recover/Uploads _recoverPendingUploads, Engine/Recover/Sweep the whole of _recoverPending,
--   Engine/Recover/Aside, Beside and Sent what a sweep leaves alone and what it sends; each
--   row of a sweep meets the same World.
-- - Engine/Walk: _walkDir on a tree of directories. Engine/Initial: _initialSync and
--   _scanLocalForUpload. Engine/Rescan: _localRescan.
-- - Socket (lib/ws-client.js): Socket/Client the state of WsClient with connect, close, _dial and the
--   listeners of a client, and the inputs that drive it; Socket/Errors _wsErrorStatus, _isSsrfError and
--   _isTerminalWsError; Socket/Backoff the delays; Socket/Floor assertNegotiatedGroupPqc of
--   lib/http-client.js. Socket/Single, Shut, Retry and Fresh prove what holds of its runs.
-- - Session (lib/sync-engine.js with lib/ws-client.js): Session/Listeners what the engine does on the
--   events of the client and the apply chain as a list of tasks, Session/Lifecycle start, stop and resync;
--   a step of the client is followed by the engine's hearing of what it emits.
-- - Watcher (lib/watcher.js): Watcher/Patterns _dirPrefixIgnores, Watcher/Handle the state of Watcher with
--   start, stop, updatePatterns, _onWatcherError, _scheduleRecovery, _recreate and its two timers,
--   Watcher/Steps onChange and onDelete and the inputs that drive the wrapper; Watcher/Sound, Silent, Revive
--   and Comeback prove what holds of its runs.
-- - Config (lib/config.js): Config/Validate validate over the values of a JSON file; Config/Valid what an
--   accepted configuration is; Config/Patterns getIgnorePatterns and getIncludePatterns with the reading of
--   a pattern file.
-- - Rotation (lib/sync-engine.js): _handleCaRotation and _recoverMtlsFromBackup on the three files of the
--   client's identity and their `.next` and `.prev` siblings; Rotation/Crash stops them between any two
--   steps and in the middle of a copy.
-- - Tests: a concrete host, and each theorem at a concrete input.
--
-- How the program is read:
-- - An Engine is passed on from step to step; a handler is one function from the engine before to the
--   engine after. The apply chain runs the handlers one at a time, so a message is one step. The lock of
--   a path is not modelled; that stop() or resync() came while a file streamed is the field
--   `interrupted` of the World.
-- - A path is a list of character codes. The disk is a function from the identity of a name on the
--   volume (`disk_key`) to a file, so a volume that folds case is one whose keys agree; how a folding
--   volume spells a name is not tracked.
-- - A file is its digest, its size, its time, and whether it can be hashed. Digests are opaque numbers,
--   where equal digests stand for equal bytes. A value that is absent is `none`; null in a row and
--   undefined in a message are never equal (`same_value`).
-- - Numbers are natural and below 2^53, where String and parseInt are decimal.
-- - The database is open and its statements succeed; SQLite's folding of case is the parameter `nocase`.
-- - b.safePath, b.guardFilename, b.atomicFile and the rest of vendor/blamejs are parameters of the World.
-- - Every upload runs in the pool, which counts it until it is over: at its own end the pool is busy.
-- - An upload's retries and circuit breaker are the framework's: the World gives the answer, and the file
--   that is at the path when the upload is done. The rescan that a changed file asks for is left out.
-- - The loops are structural: on the list of patterns, the chunks of a response, and the four retries of
--   an unlink, one for each delay after the first. The locked body of _handleLocalModify and
--   _handleLocalRename call each other; `modify_locked` runs on fuel, one more than the buffered deletes,
--   of which each such call uses up one.
-- - The clients of the socket are numbered by their dials. A client emits nothing after its 'close', as
--   the framework documents, and no listener of the engine calls the client. The URL of the server
--   parses.
-- - stop and resync are split at their waits, so that whatever the transfers in flight still do can come
--   in between; the handle of the database stays open until stop is done.
-- - The steps on the files of a rotation happen in order, and can end in the middle of a copy, which leaves
--   a part of the text or nothing; the framework's writes and renames are atomic. Whether a certificate and a key belong
--   together, and whether an offer is valid, are parameters.
-- - The handles of the watcher are numbered by the calls of b.watcher.create. A stopped handle reports no
--   change, as the framework documents; an error may still come from it. The tunables of the watcher read
--   from the environment go to the framework and are left out.
-- - Logs and metrics are left out.
--
-- Not modelled: the requests and the encrypted session of the HTTP client, the renewal of a certificate,
-- the options of a dial and the sending of a frame, the loading of the configuration, the command line, the
-- daemon, the updater, and the vendored framework.
mod Prelude
pub mod StateDb
pub mod PathFilter
pub mod Transfer
pub mod Socket
pub mod Session
pub mod Rotation
pub mod Watcher
pub mod Config
pub mod Engine
mod Tests
