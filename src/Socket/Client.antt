-- ===== src/Socket/Client.antt =====
-- lib/ws-client.js: the state of `WsClient` and its operations.
use hermitstash_sync.Prelude.{
  ℕ, Bool, true, false, not, ◌&&◌, ◌||◌, Option, none, some, List, [], ◌∷◌, ◌+◌, if◌then◌else◌,
  Text, same, keep_if, any, ◌==◌, is_some,
}
use hermitstash_sync.Socket.Floor.{KeyInfo, assert_negotiated_group_pqc}
use hermitstash_sync.Socket.Errors.{
  DialError, ws_error_status, is_ssrf_error, is_terminal_ws_error, bad_status, connection_lost,
}
use hermitstash_sync.Socket.Backoff.{reconnect_delay}

-- The configuration, and the vendored framework's answers; the dials are numbered.
pub record Net : Type 0 where
  pub reconnect : Bool  -- config.reconnect is not false
  pub is_https : Bool
  pub raw_allow_classical : Text  -- HERMITSTASH_ALLOW_CLASSICAL_TLS
  pub connect_error : ℕ → Option DialError  -- what b.wsClient.connect throws, if it does
  pub key_info : ℕ → Option KeyInfo
  pub parse_json : Text → Option Text  -- b.safeJson.parse, the value in a canonical spelling
  pub random_int : ℕ → ℕ → ℕ  -- b.crypto.randomInt from 0, at a dial

-- What the wrapper emits to its listeners.
pub data Emitted : Type 0 where
  open_event : Emitted
  message_event : Text → Emitted
  close_event : Emitted
  error_event : Text → Emitted  -- the code of the error
  upgrade_rejected : ℕ → Emitted
  auth_error : ℕ → Emitted
  reconnecting_event : ℕ → Emitted

-- One call of b.wsClient.connect.
pub record Dialed : Type 0 where
  pub number : ℕ
  pub bundle : Text
  pub from : ℕ

-- `wired` is the clients that can still call the wrapper: their listeners are attached and they have
-- not closed. The newest entries of `dials` and `emitted` come first.
pub record Socket : Type 0 where
  pub closing : Bool
  pub bundle_id : Text
  pub since : ℕ
  pub attempt : ℕ  -- `_reconnectAttempt`
  pub timer : Option ℕ  -- the delay of the pending `_reconnectTimer`
  pub handshake_complete : Bool
  pub current : Option ℕ  -- `_b`
  pub wired : List ℕ
  pub next : ℕ
  pub dials : List Dialed
  pub emitted : List Emitted

-- The constructor.
abbrev pub fresh : Socket
fresh = record {
  closing = false;
  bundle_id = [];
  since = 0;
  attempt = 0;
  timer = none;
  handshake_complete = false;
  current = none;
  wired = [];
  next = 0;
  dials = [];
  emitted = [];
}

abbrev pub emit : Emitted → Socket → Socket
emit ev s = record s { emitted = ev ∷ s.emitted }

abbrev pub is_terminal : Socket → DialError → Bool
is_terminal s err = is_terminal_ws_error s.handshake_complete err

abbrev pub unwire : ℕ → Socket → Socket
unwire c s = record s { wired = keep_if (λ d. not (d == c)) s.wired }

unfoldable pub cancel_reconnect_timer : Socket → Socket
cancel_reconnect_timer s = record s { timer = none }

-- The live client loses its listeners; its own close runs on without the wrapper.
abbrev pub detached : Option ℕ → Socket → Socket
detached none s = s
detached (some c) s = unwire c (record s { current = none })

unfoldable pub schedule_reconnect : Net → Socket → Socket
schedule_reconnect net s = if s.closing then s else if not net.reconnect then s else record s {
  timer = some (reconnect_delay (net.random_int s.next) s.attempt);
  attempt = s.attempt + 1;
}

-- The framework threw at the configuration.
abbrev pub dial_threw : Net → DialError → Socket → Socket
dial_threw net err s =
    if is_terminal s err
    then emit (upgrade_rejected 0) (record s { closing = true })
    else schedule_reconnect net (emit (error_event err.code) s)

abbrev pub dialing : Socket → Socket
dialing s = record s {
  handshake_complete = false;
  next = s.next + 1;
  dials = record { number = s.next; bundle = s.bundle_id; from = s.since } ∷ s.dials;
}

-- The outcome of b.wsClient.connect for the client with a number.
abbrev pub dialed : Net → ℕ → Option DialError → Socket → Socket
dialed net c (some err) s = dial_threw net err s
dialed net c none s = record s { current = some c; wired = c ∷ s.wired }

-- `_dial`
unfoldable pub dial : Net → Socket → Socket
dial net s = dialed net s.next (net.connect_error s.next) (dialing s)

-- `connect`
unfoldable pub connect : Net → Text → ℕ → Socket → Socket
connect net bundle_id since s =
    let idle = detached s.current (cancel_reconnect_timer s) in
    dial net (record idle { bundle_id = bundle_id; since = since; closing = false; attempt = 0 })

-- `updateSince`
abbrev pub update_since : ℕ → Socket → Socket
update_since seq s = record s { since = seq }

-- `close`
unfoldable pub close : Socket → Socket
close s = detached s.current (cancel_reconnect_timer (record s { closing = true }))

-- The listeners of a client. 'open':
unfoldable pub on_open : Net → ℕ → Socket → Socket
on_open net c s =
    if s.closing
    then s
    else if net.is_https && assert_negotiated_group_pqc net.raw_allow_classical (net.key_info c)
    then emit (upgrade_rejected 0) (record s { closing = true })
    else emit open_event (record s { handshake_complete = true; attempt = 0 })

abbrev pub parsed : Option Text → Socket → Socket
parsed none s = s
parsed (some msg) s = emit (message_event msg) s

-- 'message'
unfoldable pub on_message : Net → Text → Bool → Socket → Socket
on_message net body is_binary s =
    if s.closing then s else if is_binary then s else parsed (net.parse_json body) s

-- 'close'
unfoldable pub on_close : Net → ℕ → Socket → Socket
on_close net c s =
    schedule_reconnect net (emit close_event (unwire c (record s { current = none })))

abbrev pub is_auth : ℕ → Bool
is_auth status = status == 401 || status == 403

abbrev pub reject_upgrade : ℕ → Socket → Socket
reject_upgrade status s =
    let told = emit (upgrade_rejected status) s in
    if is_auth status then emit (auth_error status) told else told

-- 'error': `terminal` is the verdict that the listener takes three times on the same state.
unfoldable pub on_error : DialError → Socket → Socket
on_error err s =
    let terminal = is_terminal s err in
    let shut = if terminal then record s { closing = true } else s in
    if s.closing
    then s
    else if is_ssrf_error err
    then emit (upgrade_rejected 0) shut
    else if same err.code bad_status
    then (if terminal then reject_upgrade (ws_error_status err) shut else shut)
    else if terminal
    then emit (upgrade_rejected 0) shut
    else if s.handshake_complete && same err.code connection_lost
    then shut
    else emit (error_event err.code) shut

-- The callback of the timer.
unfoldable pub on_timer : Net → Socket → Socket
on_timer net s =
    let idle = record s { timer = none } in
    if s.closing then idle else dial net (emit (reconnecting_event s.attempt) idle)

pub data ClientEvent : Type 0 where
  opens closes : ClientEvent
  receives : Text → Bool → ClientEvent
  fails : DialError → ClientEvent

abbrev pub handle : Net → ℕ → ClientEvent → Socket → Socket
handle net c opens s = on_open net c s
handle net c closes s = on_close net c s
handle net c (receives body is_binary) s = on_message net body is_binary s
handle net c (fails err) s = on_error err s

-- What can happen to the wrapper: a call of the engine, an event of a client that it listens to, and
-- the timer.
pub data Input : Type 0 where
  connects : Text → ℕ → Input
  shuts : Input
  moves_since : ℕ → Input
  from_client : ℕ → ClientEvent → Input
  timer_fires : Input

unfoldable pub step : Net → Input → Socket → Socket
step net (connects bundle_id since) s = connect net bundle_id since s
step net shuts s = close s
step net (moves_since seq) s = update_since seq s
step net (from_client c ev) s = if any (λ d. d == c) s.wired then handle net c ev s else s
step net timer_fires s = if is_some s.timer then on_timer net s else s

unfoldable pub run : Net → List Input → Socket → Socket
run net [] s = s
run net (i ∷ is) s = run net is (step net i s)
