-- ===== src/Transport/Reader/Stream.antt =====
-- The messages that the reader queues do not depend on how the stream is cut into chunks.
use mathlib.Core.List.{append-nil, append_assoc}
use indi_engine.Base.{Bool, true, false, List, [], ◌∷◌, ◌++◌, ◌≡◌, refl, sym, ap, ◌∙◌}
use indi_engine.Transport.Bytes.{Bytes}
use indi_engine.Transport.Splitter.{split_xml_messages}
use indi_engine.Transport.Splitter.Loop.{split_xml_messages-Splits}
use indi_engine.Transport.Splitter.Stream.{Splits, Splits-append, Splits-unique}
use indi_engine.Transport.Reader.{
  Transport, on_recv, Recv, received, closed, timed_out, socket_error, unexpected, receive,
  reader_round, reader_loop,
}

-- The bytes of the chunks in order.
abbrev pub bytes_of : List Bytes → Bytes
bytes_of [] = []
bytes_of (chunk ∷ chunks) = chunk ++ bytes_of chunks

abbrev pub receive_all : List Bytes → Transport → Transport
receive_all [] t = t
receive_all (chunk ∷ chunks) t = receive_all chunks (receive chunk t)

-- The queue is `before` and the messages of the bytes seen so far; the buffer is their rest.
record Delivered (before : List Bytes) (seen : Bytes) (t : Transport) : Type 0 where
  messages : List Bytes
  queued : t.message_queue ≡ before ++ messages
  splits : Splits seen messages t.buffer

receive-Delivered :
    (before : List Bytes) (seen chunk : Bytes) (t : Transport)
    → Delivered before seen t
    → Delivered before (seen ++ chunk) (receive chunk t)
unfolding receive
receive-Delivered before seen chunk t d = record {
  messages = d.messages ++ (split_xml_messages (t.buffer ++ chunk) t.scan_pos).messages;
  queued = rw d.queued (append_assoc before d.messages _);
  splits = Splits-append chunk d.splits (split_xml_messages-Splits (t.buffer ++ chunk) t.scan_pos);
}

receive_all-Delivered :
    (chunks : List Bytes) (before : List Bytes) (seen : Bytes) (t : Transport)
    → Delivered before seen t
    → Delivered before (seen ++ bytes_of chunks) (receive_all chunks t)
receive_all-Delivered [] before seen t d = rw (append-nil seen) d
receive_all-Delivered (chunk ∷ chunks) before seen t d =
    rw (← append_assoc seen chunk (bytes_of chunks)) (
      receive_all-Delivered chunks before (seen ++ chunk) (receive chunk t)
        (receive-Delivered before seen chunk t d))

-- However the bytes that follow an empty buffer are cut into chunks, the reader queues the messages
-- that one split of all the bytes finds, in order, and keeps the rest that it leaves.
pub receive_all-split :
    (chunks : List Bytes) (t : Transport)
    → t.buffer ≡ []
    → ((receive_all chunks t).message_queue
        ≡ t.message_queue ++ (split_xml_messages (bytes_of chunks) 0).messages)
      × ((receive_all chunks t).buffer ≡ (split_xml_messages (bytes_of chunks) 0).rest)
receive_all-split chunks t empty =
    let d = receive_all-Delivered chunks t.message_queue [] t (record {
      messages = [];
      queued = sym (append-nil t.message_queue);
      splits = rw empty Splits.ended;
    }) in
    let (same, same') = Splits-unique d.splits (split_xml_messages-Splits (bytes_of chunks) 0) in
    (d.queued ∙ ap (λ ms. t.message_queue ++ ms) same, same')

-- Rounds that bring bytes or nothing: the connection stays up.
abbrev pub IsHealthy : List (Recv × Bool) → Type 0
IsHealthy [] = Unit
IsHealthy ((received (b ∷ chunk), succeeds) ∷ rounds) = IsHealthy rounds
IsHealthy ((timed_out, succeeds) ∷ rounds) = IsHealthy rounds
IsHealthy (_ ∷ rounds) = ⊥

abbrev pub chunks_of : List (Recv × Bool) → List Bytes
chunks_of [] = []
chunks_of ((received chunk, succeeds) ∷ rounds) = chunk ∷ chunks_of rounds
chunks_of (_ ∷ rounds) = chunks_of rounds

abbrev pub IsUp : Transport → Type 0
IsUp t = (t.connected ≡ true) × (t.has_socket ≡ true) × (t.stopped ≡ false)

pub reader_round-on_recv :
    (r : Recv) (succeeds : Bool) (t : Transport)
    → IsUp t
    → reader_round r succeeds t ≡ on_recv r succeeds t
unfolding reader_round
reader_round-on_recv r succeeds t up = simp (up.0, up.1, up.2)

reader_loop-receive_all :
    (rounds : List (Recv × Bool)) (t : Transport)
    → IsHealthy rounds
    → IsUp t
    → reader_loop rounds t ≡ receive_all (chunks_of rounds) t
unfolding reader_loop receive
reader_loop-receive_all [] t h up = refl
reader_loop-receive_all ((received [], succeeds) ∷ rounds) t h up = absurd h
reader_loop-receive_all ((received (b ∷ chunk), succeeds) ∷ rounds) t h up =
    ap (reader_loop rounds) (reader_round-on_recv (received (b ∷ chunk)) succeeds t up)
    ∙ reader_loop-receive_all rounds (receive (b ∷ chunk) t) h up
reader_loop-receive_all ((timed_out, succeeds) ∷ rounds) t h up =
    ap (reader_loop rounds) (reader_round-on_recv timed_out succeeds t up)
    ∙ reader_loop-receive_all rounds t h up
reader_loop-receive_all ((closed, succeeds) ∷ rounds) t h up = absurd h
reader_loop-receive_all ((socket_error, succeeds) ∷ rounds) t h up = absurd h
reader_loop-receive_all ((unexpected, succeeds) ∷ rounds) t h up = absurd h

-- From an empty buffer and with the connection up: however `recv` cuts the stream into chunks, and
-- whatever timeouts come between them, the reader queues the messages that one split of all the
-- bytes finds, in order, and keeps the rest that it leaves.
pub reader_loop-split :
    (rounds : List (Recv × Bool)) (t : Transport)
    → IsHealthy rounds
    → IsUp t
    → t.buffer ≡ []
    → ((reader_loop rounds t).message_queue
        ≡ t.message_queue ++ (split_xml_messages (bytes_of (chunks_of rounds)) 0).messages)
      × ((reader_loop rounds t).buffer ≡ (split_xml_messages (bytes_of (chunks_of rounds)) 0).rest)
reader_loop-split rounds t h up empty =
    rw (reader_loop-receive_all rounds t h up) (receive_all-split (chunks_of rounds) t empty)
