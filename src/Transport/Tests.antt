-- ===== src/Transport/Tests.antt =====
-- Runs of the transport layer at fixed inputs.
use Prim.Native.Char.{code}
use Prim.Native.String.{String}
use indi_engine.Base.{◌+◌, Bool, true, false, ◌≡◌, refl, arith, List, [], ◌∷◌, ◌++◌, length}
use indi_engine.Base.Int.{pos, is_zero, incr, decr}
use indi_engine.Transport.Bytes.{Bytes, is_prefix, find, slice, strip}
use indi_engine.Transport.Splitter.{
  find_gt, find_tag_gt, scan_round, resume_round, scan, resume, find_element_end, skip_space,
  split_from, split_xml_messages,
}
use indi_engine.Transport.Splitter.Loop.{split_xml_messages-Splits}
use indi_engine.Transport.Splitter.Resume.{element_end, find_element_end-scan_from}
use indi_engine.Transport.Splitter.Stream.{Splits}
use indi_engine.Transport.Reader.{Transport, init, Recv, received, timed_out, closed, reader_loop}
use indi_engine.Transport.Reader.Stream.{bytes_of, chunks_of, reader_loop-split}
use indi_engine.Transport.Reader.Backoff.{IsPaced, reader_loop-IsPaced}

-- every literal below is ASCII
abbrev ascii : String → Bytes
ascii String.[] = []
ascii (String.◌∷◌ c s) = code c ∷ ascii s

-- Two elements of which the second is cut.
abbrev stream : Bytes
stream = ascii "<a/><b>x</"

find_element_end-scan_from_example :
    element_end (find_element_end stream 4 8)
    ≡ element_end (scan (length stream + 1) stream 4 (pos 0))
find_element_end-scan_from_example = find_element_end-scan_from stream 4 8

split_xml_messages-Splits_example :
    Splits stream (split_xml_messages stream 0).messages (split_xml_messages stream 0).rest
split_xml_messages-Splits_example = split_xml_messages-Splits stream 0

abbrev up : Transport
up = record init { connected = true; has_socket = true }

abbrev rounds : List (Recv × Bool)
rounds = (received stream, true) ∷ (timed_out, true) ∷ (received (ascii "b>"), true) ∷ []

reader_loop-split_example :
    ((reader_loop rounds up).message_queue
      ≡ up.message_queue ++ (split_xml_messages (bytes_of (chunks_of rounds)) 0).messages)
    × ((reader_loop rounds up).buffer ≡ (split_xml_messages (bytes_of (chunks_of rounds)) 0).rest)
reader_loop-split_example = reader_loop-split rounds up tt (refl, refl, refl) refl

up-IsPaced : IsPaced up
up-IsPaced = record { least = omega arith; greatest = omega arith; history = tt }

reader_loop-IsPaced_example : IsPaced (reader_loop ((closed, false) ∷ rounds) up)
reader_loop-IsPaced_example = reader_loop-IsPaced ((closed, false) ∷ rounds) up up-IsPaced

split_two : split_xml_messages (ascii " <a x='>'><b/></a>\n<!-- <c> --><c/> <d>") 0 ≡ record {
  messages = ascii "<a x='>'><b/></a>" ∷ ascii "<!-- <c> --><c/>" ∷ [];
  rest = ascii "<d>";
  scan_pos = 3;
}
unfolding split_xml_messages split_from skip_space find_element_end resume scan scan_round
    resume_round find_gt find_tag_gt find strip slice is_prefix is_zero incr decr
split_two = refl
