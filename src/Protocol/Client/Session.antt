-- ===== src/Protocol/Client/Session.antt =====
-- The connection of `PurePythonIndiClient`, in indi_engine/indi/protocol/client.py: `connectServer`,
-- `disconnectServer`, `watchDevice`, `watchProperty`, `connectDevice` and `disconnectDevice`. A
-- flag says whether the socket's operation succeeds.
use Prim.Native.String.{◌++◌ as ◌+s◌}
use indi_engine.Base.{String, Bool, true, false, not, [], if◌then◌else◌}
use indi_engine.Base.Result.{Result, ok, err, indi_disconnected_error}
use indi_engine.Protocol.Client.{Client, Event, fire}
use indi_engine.Protocol.Runtime.{Runtime}
use indi_engine.Protocol.Text.{truthy}
use indi_engine.Transport.Reader
use indi_engine.Transport.Reader.{Transport}

abbrev connection_command : String → String → String → String
connection_command device connect disconnect =
    "<newSwitchVector device=\"" +s device +s "\" name=\"CONNECTION\">"
    +s "<oneSwitch name=\"CONNECT\">" +s connect +s "</oneSwitch>"
    +s "<oneSwitch name=\"DISCONNECT\">" +s disconnect +s "</oneSwitch>" +s "</newSwitchVector>"

module _ {py : Runtime} where
  abbrev pub after_connect :
      Result Transport × Transport → Client py → Result (Unit {0}) × Client py
  after_connect (ok t', t) c =
      (ok tt, fire Event.server_connected (record c { transport = t; reader_running = true }))
  after_connect (err e, t) c =
      (err e, fire (Event.server_disconnected 1) (record c { transport = t }))

  -- `connectServer`
  unfoldable pub connect_server : Bool → Client py → Result (Unit {0}) × Client py
  connect_server succeeds c =
      after_connect (Reader.connect succeeds c.transport) (record c { devices = [] })

  -- `disconnectServer`
  unfoldable pub disconnect_server : Client py → Client py
  disconnect_server c =
      fire (Event.server_disconnected 0)
        (record c { reader_running = false; transport = Reader.disconnect c.transport })

  -- A send whose exception is caught and logged.
  abbrev pub send_quietly : Bool → String → Client py → Client py
  send_quietly succeeds xml c =
      if not c.transport.connected
      then c
      else record c { transport = (Reader.send_message succeeds xml c.transport).1 }

  -- `watchDevice`
  unfoldable pub watch_device : Bool → String → Client py → Client py
  watch_device succeeds device c =
      send_quietly succeeds
        (if truthy device
          then "<getProperties version=\"1.7\" device=\"" +s device +s "\"/>"
          else "<getProperties version=\"1.7\"/>")
        c

  -- `watchProperty`
  unfoldable pub watch_property : Bool → String → String → Client py → Client py
  watch_property succeeds device property c =
      send_quietly succeeds
        ("<getProperties version=\"1.7\" device=\"" +s device +s "\" name=\"" +s property +s "\"/>")
        c

  -- `_require_connected` and `self._transport.send_message(xml)`
  unfoldable pub send_xml : Bool → String → Client py → Result (Unit {0}) × Client py
  send_xml succeeds xml c =
      let (r, t) = Reader.send_message succeeds xml c.transport in (r, record c { transport = t })

  abbrev pub require_connected :
      Client py → Result (Unit {0}) × Client py → Result (Unit {0}) × Client py
  require_connected c rest =
      if not c.transport.connected then (err indi_disconnected_error, c) else rest

  -- `connectDevice`, `disconnectDevice`
  unfoldable pub connect_device : Bool → String → Client py → Result (Unit {0}) × Client py
  connect_device succeeds device c =
      require_connected c (send_xml succeeds (connection_command device "On" "Off") c)

  unfoldable pub disconnect_device : Bool → String → Client py → Result (Unit {0}) × Client py
  disconnect_device succeeds device c =
      require_connected c (send_xml succeeds (connection_command device "Off" "On") c)
