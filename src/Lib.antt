-- ===== src/Lib.antt =====
-- Models and theorems of the engine between an INDI server and its clients.
--
-- Parts of the program, and the files here:
-- - indi_engine/indi/protocol/transport.py reads the server's byte stream, cuts it into XML elements
--   and reconnects: Transport/Splitter.antt (`_find_gt`, `_find_tag_gt`, `_find_element_end`,
--   `_split_xml_messages`) and Transport/Reader.antt (`IndiTransport`). Proofs are in the modules
--   below them.
-- - indi_engine/indi/protocol/constants.py, properties.py and parser.py: Protocol/Constants.antt,
--   Protocol/Properties.antt, Protocol/Message.antt, Protocol/Parser.antt and
--   Protocol/Parser/Create.antt.
-- - indi_engine/indi/protocol/state.py: Protocol/Known.antt, and the sets it stands for in
--   Protocol/Known/View.antt.
-- - indi_engine/indi/protocol/client.py takes the messages from the transport, parses them, and
--   updates the known names, the devices and the state manager: Protocol/Client.antt (handlers),
--   Protocol/Client/Session.antt (connection) and Protocol/Client/Send.antt (commands).
-- - indi_engine/state/manager.py: State.antt. indi_engine/indi/device_classifier.py: Classifier.antt.
-- - indi_engine/server/socket_server.py: Server/Framing.antt (lines of the stream), Server/Hub.antt
--   (connections, subscriptions, broadcast, messages of peers), and Server/Engine.antt (the components
--   that a command meets) with Server/Engine/Dispatch.antt (`_handle_command`), Devices.antt,
--   Control.antt, Images.antt, Scripts.antt and New.antt (its handlers).
-- - indi_engine/server/serializer.py: Server/Serializer.antt, into the values of Server/Json.antt.
-- - indi_engine/network/peer.py: Server/Peer.antt. indi_engine/network/discovery.py:
--   Server/Discovery.antt.
-- - indi_engine/indi/server.py: IndiServer.antt (the interface of a manager), IndiServer/Process.antt and
--   IndiServer/Systemd.antt, which IndiServer/Managers.antt puts behind the interface.
-- - indi_engine/scripting/registry.py, runner.py and sandbox.py: Scripting/Registry.antt (with
--   Scripting/Newlines.antt for what reading a text file makes of its newlines),
--   Scripting/Runner.antt and Scripting/Sandbox.antt. indi_engine/scripting/api.py: Scripting/Api.antt
--   (reads and commands of a script) and Scripting/Api/Wait.antt (its blocking calls).
-- - indi_engine/frames/store.py: Frames.antt.
-- - indi_engine/main.py: Main.antt (capabilities, attempts to connect, peers, and the identity of
--   indi_engine/network/identity.py) and Main/Callbacks.antt (what the INDI client's callbacks do to
--   the engine). Samples.antt has the data of the runs at fixed inputs.
--
-- A method of a class is a function from the record of its fields to the changed record; Python's
-- dicts are association lists in the order of insertion, and its exceptions results. A callback or a
-- broadcast is an entry at the end of a log. Threads take turns: each handler, each round of the
-- reader and each locked section is one step. What a socket, a clock, a file system error or the
-- thread pool does is an input of the step. XML, JSON, base64, SHA-256, gzip, dates, floating-point
-- numbers and the compiler of scripts are parameters.
--
-- The scan for the end of an element recurses on fuel. The splitter gives it the length of the buffer
-- and one more, and each round moves on by a byte at least, so that it does not run out.
--
-- A blocking call of a script is a loop over rounds; each round has the clock it reads, the events of
-- the run and the updates that come while it waits. Rounds that run out leave it waiting, and a theorem
-- gives the number of rounds that is enough. The attempts to connect recurse on the number allowed.
--
-- A command is a record of its fields with the types that the protocol gives them; what else JSON can
-- hold there, a number as a device for instance, is not modelled. The three handlers with threads of
-- their own are one step each.
--
-- Not modelled: the command line, the configuration, signals and the order of start and stop in main.py,
-- logging, the registration with zeroconf, the metadata of scripts in YAML, sendNewBLOB, and the time
-- of scripts with astropy. These are input and output, or settings of libraries.
pub mod Base
pub mod Transport
pub mod State
pub mod Protocol
pub mod Server
pub mod IndiServer
pub mod Main
mod Samples
pub mod Scripting
pub mod Frames
pub mod Classifier
