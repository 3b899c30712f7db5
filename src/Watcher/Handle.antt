-- ===== src/Watcher/Handle.antt =====
-- lib/watcher.js: the state of `Watcher` and its operations.
use hermitstash_sync.Prelude.{
  ℕ, zero, suc, ◌+◌, Bool, true, false, not, ◌&&◌, ◌||◌, Option, none, some, List, [], ◌∷◌,
  if◌then◌else◌, Text, codes, same, any, keep_if, ltb, ◌==◌, is_some,
}
use hermitstash_sync.Watcher.Patterns.{Caps, dir_prefix_ignores}

-- The runtime, and what b.watcher.create does: it throws at some calls, numbered, with some patterns.
pub record Backend : Type 0 where
  pub caps : Caps
  pub create_throws : ℕ → List Text → Bool

-- An error that the framework hands to onError.
pub record WatchError : Type 0 where
  pub code : Text
  pub fatal : Bool

-- A change that the framework reports; `size` and `mtime` are absent from a deletion.
pub record RawEvent : Type 0 where
  pub is_dir : Bool
  pub relative_path : Text
  pub full_path : Text
  pub size : ℕ
  pub mtime : Option ℕ

pub data Notice : Type 0 where
  changed : Text → Text → ℕ → ℕ → Notice
  deleted : Text → Text → Notice
  rescan_notice fatal_notice degraded_notice : Notice
  error_notice : Text → Notice

-- A handle is the number of its create call. `running` is the framework's own view: the handles
-- created and not stopped. `rescan_due` and `stable_due` are the callbacks that wait for a handle's
-- baseline. The newest notice comes first.
pub record Watcher : Type 0 where
  pub ignore_patterns : List Text
  pub include_patterns : List Text
  pub case_folds : Bool
  pub dir_ignores : List Text
  pub current_handle : Option ℕ
  pub stopped : Bool
  pub recovering : Bool
  pub recovery_attempts : ℕ
  pub recovery_timer : Option ℕ  -- its delay
  pub stable_timer : Option ℕ  -- the handle it confirms
  pub running : List ℕ
  pub next : ℕ
  pub rescan_due : List ℕ
  pub stable_due : List ℕ
  pub notices : List Notice

-- The constructor.
abbrev pub new_watcher : Backend → List Text → List Text → Bool → Watcher
new_watcher be ignore include case_folds = record {
  ignore_patterns = ignore;
  include_patterns = include;
  case_folds = case_folds;
  dir_ignores = dir_prefix_ignores be.caps ignore;
  current_handle = none;
  stopped = false;
  recovering = false;
  recovery_attempts = 0;
  recovery_timer = none;
  stable_timer = none;
  running = [];
  next = 0;
  rescan_due = [];
  stable_due = [];
  notices = [];
}

abbrev pub notify : Notice → Watcher → Watcher
notify n w = record w { notices = n ∷ w.notices }

-- MAX_RECOVERY_ATTEMPTS
abbrev pub max_recovery_attempts : ℕ
max_recovery_attempts = 4

-- RECOVERY_BACKOFF_MS, its last entry past the end.
abbrev pub recovery_backoff : ℕ → ℕ
recovery_backoff zero = 500
recovery_backoff (suc zero) = 2000
recovery_backoff (suc (suc zero)) = 5000
recovery_backoff _ = 15000

-- FATAL_WATCHER_CODES
abbrev pub fatal_watcher_codes : List Text
fatal_watcher_codes =
    codes "watcher/handle-dead"
    ∷ codes "watcher/root-lost"
    ∷ codes "watcher/overflow"
    ∷ codes "watcher/poll-overflow"
    ∷ codes "watcher/start-failed"
    ∷ codes "watcher/recursive-unsupported"
    ∷ []

unfoldable pub is_fatal_watch_error : WatchError → Bool
is_fatal_watch_error err = err.fatal || any (λ c. same c err.code) fatal_watcher_codes

-- `this._handle.stop()` and `this._handle = null`
abbrev pub drop_handle : Option ℕ → Watcher → Watcher
drop_handle none w = w
drop_handle (some h) w = record w {
  current_handle = none;
  running = keep_if (λ r. not (r == h)) w.running;
}

-- b.watcher.create returned a handle.
abbrev pub holding : ℕ → Watcher → Watcher
holding h w = record w { current_handle = some h; running = h ∷ w.running }

abbrev pub called : Watcher → Watcher
called w = record w { next = w.next + 1 }

-- `start`: whether it throws, and the state it leaves.
unfoldable pub start_watcher : Backend → Watcher → Bool × Watcher
start_watcher be w =
    if is_some w.current_handle
    then (false, w)
    else if be.create_throws w.next w.dir_ignores
    then (true, record (called w) { stopped = false })
    else (false, record (holding w.next (called w)) { stopped = false; recovery_attempts = 0 })

-- `_emitRescanWhenReady`
abbrev pub emit_rescan_when_ready : ℕ → Watcher → Watcher
emit_rescan_when_ready h w = record w { rescan_due = h ∷ w.rescan_due }

-- `_scheduleRecovery`
unfoldable pub schedule_recovery : Watcher → Watcher
schedule_recovery w =
    if w.stopped || w.recovering || is_some w.current_handle
    then w
    else if not (ltb w.recovery_attempts max_recovery_attempts)
    then notify degraded_notice w
    else record w {
      recovering = true;
      recovery_timer = some (recovery_backoff w.recovery_attempts);
    }

-- `_onWatcherError`
unfoldable pub on_watcher_error : WatchError → Watcher → Watcher
on_watcher_error err w =
    if w.stopped
    then w
    else if is_fatal_watch_error err
    then schedule_recovery
        (notify fatal_notice (record (drop_handle w.current_handle w) { stable_timer = none }))
    else notify (error_notice err.code) w

-- `_recreate` past its guard.
abbrev pub recreate_called : Backend → ℕ → Watcher → Watcher
recreate_called be h w =
    if be.create_throws h w.dir_ignores
    then schedule_recovery w
    else let held = emit_rescan_when_ready h (holding h w) in
      record held { stable_due = h ∷ held.stable_due }

-- `_recreate`
unfoldable pub recreate : Backend → Watcher → Watcher
recreate be w =
    if w.stopped || is_some w.current_handle
    then w
    else recreate_called be w.next (record (called w) {
      recovery_attempts = w.recovery_attempts + 1;
      dir_ignores = dir_prefix_ignores be.caps w.ignore_patterns;
    })

abbrev pub is_held : ℕ → Option ℕ → Bool
is_held h none = false
is_held h (some c) = c == h

abbrev pub is_due : ℕ → List ℕ → Bool
is_due h due = any (λ d. d == h) due

-- The callbacks that waited for the baseline of a handle: the rescan first, then the stability window.
unfoldable pub on_ready : ℕ → Watcher → Watcher
on_ready h w =
    let live = is_held h w.current_handle && not w.stopped in
    let settled = record w {
      rescan_due = keep_if (λ d. not (d == h)) w.rescan_due;
      stable_due = keep_if (λ d. not (d == h)) w.stable_due;
    } in
    let told = if live && is_due h w.rescan_due then notify rescan_notice settled else settled in
    if live && is_due h w.stable_due then record told { stable_timer = some h } else told

-- The first walk of a handle failed: its callbacks never run.
abbrev pub on_ready_fails : ℕ → Watcher → Watcher
on_ready_fails h w = record w {
  rescan_due = keep_if (λ d. not (d == h)) w.rescan_due;
  stable_due = keep_if (λ d. not (d == h)) w.stable_due;
}

-- The timer of `_scheduleRecovery`.
unfoldable pub on_recovery_timer : Backend → Watcher → Watcher
on_recovery_timer be w =
    if is_some w.recovery_timer
    then recreate be (record w { recovery_timer = none; recovering = false })
    else w

abbrev pub confirm_stable : Option ℕ → Watcher → Watcher
confirm_stable none w = w
confirm_stable (some h) w =
    let done = record w { stable_timer = none } in
    if is_held h w.current_handle && not w.stopped
    then record done { recovery_attempts = 0 }
    else done

-- The timer of the stability window.
unfoldable pub on_stable_timer : Watcher → Watcher
on_stable_timer w = confirm_stable w.stable_timer w

-- `stop`
unfoldable pub stop_watcher : Watcher → Watcher
stop_watcher w =
    drop_handle w.current_handle
      (record w { stopped = true; recovery_timer = none; stable_timer = none; recovering = false })

abbrev pub same_texts : List Text → List Text → Bool
same_texts [] [] = true
same_texts [] (q ∷ qs) = false
same_texts (p ∷ ps) [] = false
same_texts (p ∷ ps) (q ∷ qs) = same p q && same_texts ps qs

abbrev pub awaiting : Option ℕ → Watcher → Watcher
awaiting none w = w
awaiting (some h) w = emit_rescan_when_ready h w

-- The end of `updatePatterns`, after `start`.
abbrev pub after_start : Bool × Watcher → Watcher
after_start (true, w) = schedule_recovery (notify fatal_notice (record w { current_handle = none }))
after_start (false, w) = awaiting w.current_handle w

-- The old handle is stopped; without one, the recovery's bookkeeping is cleared.
abbrev pub bounced : Watcher → Watcher
bounced w =
    if is_some w.current_handle
    then drop_handle w.current_handle w
    else record w { recovering = false; recovery_timer = none; recovery_attempts = 0 }

abbrev pub with_patterns : Backend → List Text → List Text → Watcher → Watcher
with_patterns be ignore include w = record w {
  ignore_patterns = ignore;
  include_patterns = include;
  dir_ignores = dir_prefix_ignores be.caps ignore;
}

-- `updatePatterns`
unfoldable pub update_patterns : Backend → List Text → List Text → Watcher → Watcher
update_patterns be ignore include w =
    let w' = with_patterns be ignore include w in
    if same_texts w'.dir_ignores w.dir_ignores || w.stopped
    then w'
    else after_start (start_watcher be (bounced w'))
