-- ===== src/Transport/Reader.antt =====
-- The connection and the reader thread of `IndiTransport` in
-- indi_engine/indi/protocol/transport.py: `connect`, `disconnect`, `send_message`, `get_message`,
-- `_reader_loop` and `_handle_disconnection`. What the socket does is an input of each step.
pub mod Stream
pub mod Backoff
use indi_engine.Base.{
  ℕ, ◌*◌, min, Bool, true, false, not, ◌&&◌, ◌||◌, Option, none, some, List, [], ◌∷◌, ◌++◌, String,
  if◌then◌else◌,
}
use indi_engine.Base.Result.{Result, ok, err, indi_connection_error, indi_disconnected_error}
use indi_engine.Transport.Bytes.{Bytes}
use indi_engine.Transport.Splitter.{Split, split_xml_messages}

abbrev pub reconnect_min_delay : ℕ
reconnect_min_delay = 2

abbrev pub reconnect_max_delay : ℕ
reconnect_max_delay = 60

abbrev pub reconnect_backoff_factor : ℕ
reconnect_backoff_factor = 2

-- The fields of `IndiTransport`, with the reader thread's `buffer` and `scan_pos`, the delays
-- slept so far and the texts sent so far.
pub record Transport : Type 0 where
  pub connected : Bool
  pub has_socket : Bool
  pub stopped : Bool
  pub reconnect_delay : ℕ
  pub message_queue : List Bytes
  pub buffer : Bytes
  pub scan_pos : ℕ
  pub slept : List ℕ
  pub sent : List String

-- `IndiTransport()`
abbrev pub init : Transport
init = record {
  connected = false;
  has_socket = false;
  stopped = false;
  reconnect_delay = reconnect_min_delay;
  message_queue = [];
  buffer = [];
  scan_pos = 0;
  slept = [];
  sent = [];
}

-- `connect`; the flag says whether `socket.connect` succeeds. A new reader thread starts with an
-- empty buffer; without one, the old thread's buffer stays.
unfoldable pub connect : Bool → Transport → Result Transport × Transport
connect succeeds t =
    let t' = record t { stopped = false; reconnect_delay = reconnect_min_delay } in
    if t.connected
    then (ok t', t')
    else if succeeds
    then (let t'' = record t' { connected = true; has_socket = true; buffer = []; scan_pos = 0 } in
        (ok t'', t''))
    else (let t'' = record t' { connected = false; has_socket = true } in
        (err indi_connection_error, t''))

-- `disconnect`
unfoldable pub disconnect : Transport → Transport
disconnect t = record t { stopped = true; has_socket = false; connected = false }

-- `send_message`; the flag says whether `sendall` succeeds.
unfoldable pub send_message : Bool → String → Transport → Result (Unit {0}) × Transport
send_message succeeds xml t =
    if not t.connected
    then (err indi_disconnected_error, t)
    else if not t.has_socket
    then (err indi_disconnected_error, t)
    else if succeeds
    then (ok tt, record t { sent = t.sent ++ xml ∷ [] })
    else (err indi_connection_error, record t { connected = false })

abbrev pop : Transport → List Bytes → Option Bytes × Transport
pop t [] = (none, t)
pop t (msg ∷ queue) = (some msg, record t { message_queue = queue })

-- `get_message`; `none` when the queue stays empty until the timeout.
unfoldable pub get_message : Transport → Option Bytes × Transport
get_message t = pop t t.message_queue

-- `_handle_disconnection`; the flag says whether the attempt to reconnect succeeds.
unfoldable pub handle_disconnection : Bool → Transport → Transport
handle_disconnection succeeds t = if t.stopped then t else record t {
  connected = succeeds;
  has_socket = true;
  slept = t.slept ++ t.reconnect_delay ∷ [];
  reconnect_delay =
      if succeeds
      then reconnect_min_delay
      else min (t.reconnect_delay * reconnect_backoff_factor) reconnect_max_delay;
}

-- What `recv` does in one round of the reader's loop.
pub data Recv : Type 0 where
  received : Bytes → Recv
  closed : Recv
  timed_out : Recv
  socket_error : Recv
  unexpected : Recv

-- `buffer += data`, the split, and the messages put on the queue
unfoldable pub receive : Bytes → Transport → Transport
receive chunk t =
    let s = split_xml_messages (t.buffer ++ chunk) t.scan_pos in
    record t {
      buffer = s.rest;
      scan_pos = s.scan_pos;
      message_queue = t.message_queue ++ s.messages;
    }

abbrev pub forget_buffer : Transport → Transport
forget_buffer t = record t { buffer = []; scan_pos = 0 }

abbrev pub on_recv : Recv → Bool → Transport → Transport
on_recv (received []) succeeds t =
    forget_buffer (handle_disconnection succeeds (record t { connected = false }))
on_recv (received (b ∷ chunk)) succeeds t = receive (b ∷ chunk) t
on_recv closed succeeds t =
    forget_buffer (handle_disconnection succeeds (record t { connected = false }))
on_recv timed_out succeeds t = t
on_recv socket_error succeeds t = handle_disconnection succeeds (record t { connected = false })
on_recv unexpected succeeds t = handle_disconnection succeeds (record t { connected = false })

-- One round of `_reader_loop`, with what `recv` would do and whether an attempt to reconnect
-- would succeed.
unfoldable pub reader_round : Recv → Bool → Transport → Transport
reader_round r succeeds t =
    if t.stopped
    then t
    else if not t.connected || not t.has_socket
    then forget_buffer (handle_disconnection succeeds t)
    else on_recv r succeeds t

-- The rounds of the reader's loop in order.
unfoldable pub reader_loop : List (Recv × Bool) → Transport → Transport
reader_loop [] t = t
reader_loop ((r, succeeds) ∷ rounds) t = reader_loop rounds (reader_round r succeeds t)
