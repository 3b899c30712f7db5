-- ===== src/Tests.antt =====
-- Concrete runs of the development: a Linux host, one tracked file, and each theorem applied there.
mod Host
mod CursorRuns
mod InboundRuns
mod RenameRuns
mod LocalRuns
mod MoveRuns
mod RecoverRuns
mod TableRuns
mod FilterRuns
mod SocketRuns
mod SessionRuns
mod SweepRuns
mod WatcherRuns
mod ConfigRuns
