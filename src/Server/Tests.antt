-- ===== src/Server/Tests.antt =====
-- Runs of the socket server's parts at fixed inputs.
use indi_engine.Base.{
  ℕ, Bool, false, none, some, List, [], ◌∷◌, ◌++◌, ◌≡◌, refl, ◌&&◌, if◌then◌else◌,
}
use indi_engine.Base.Names.{member}
use indi_engine.Base.Numbers.{◌==◌ as nat_eq}
use indi_engine.Server.Delivery.{
  IsTable, is_target, packets_to, passed_on, seen_by, broadcast-delivers,
}
use indi_engine.Server.Framing.{split_lines, stripped_lines, read_chunks, read_chunks-split}
use indi_engine.Server.Hub.{no_subscriptions, Packet, Hub, subscriptions_of, broadcast}
use indi_engine.Server.Relay.{is_distinct, relay, is_delivered, relay-distinct}
use indi_engine.Transport.Bytes.{Bytes}

abbrev chunks : List Bytes
chunks = (b'a' ∷ 10 ∷ b'b' ∷ []) ∷ (b'c' ∷ 10 ∷ []) ∷ []

abbrev whole : Bytes
whole = b'a' ∷ 10 ∷ b'b' ∷ b'c' ∷ 10 ∷ []

read_chunks-split_example : read_chunks [] chunks ≡ record {
  complete = stripped_lines (split_lines whole).complete;
  rest = (split_lines whole).rest;
}
unfolding split_lines
read_chunks-split_example = read_chunks-split [] chunks refl

abbrev hub : Hub ℕ
hub = record {
  identity = some "here";
  connections = (1, record { all = false; devices = "Cam" ∷ [] }) ∷ (2, no_subscriptions) ∷ [];
  sent = [];
}

abbrev packet : Packet ℕ
packet = record { device = some "Cam"; provenance = some ("there" ∷ []); body = 7 }

abbrev accepts : ℕ → Bool
accepts conn = nat_eq conn 2

is_table : IsTable hub.connections
unfolding subscriptions_of
is_table = (refl, (refl, tt))

broadcast-delivers_example :
    packets_to 1 (broadcast accepts none packet hub).sent
    ≡ packets_to 1 hub.sent
      ++ (if is_target none packet.device 1 (subscriptions_of 1 hub.connections) && accepts 1
          then passed_on hub.identity packet ∷ []
          else [])
broadcast-delivers_example = broadcast-delivers accepts none packet hub 1 is_table

relay-distinct_example :
    is_delivered (relay ("here" ∷ "beyond" ∷ "here" ∷ []) (some packet))
    ≡ is_distinct (seen_by packet.provenance ++ "here" ∷ "beyond" ∷ "here" ∷ [])
unfolding member
relay-distinct_example = relay-distinct ("here" ∷ "beyond" ∷ "here" ∷ []) packet refl
