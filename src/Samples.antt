-- ===== src/Samples.antt =====
-- The data of the runs at fixed inputs: a camera, its client, and an engine with two clients.
use indi_engine.Base.{ℕ, true, false, none, some, [], ◌∷◌, List}
use indi_engine.Frames.{Codec, Meta}
use indi_engine.IndiServer.Managers.{process_manager}
use indi_engine.IndiServer.Process
use indi_engine.IndiServer.Process.{Process}
use indi_engine.Protocol.Client.{Client}
use indi_engine.Protocol.Constants.{PropertyType, PropertyState, PropertyPerm, SwitchRule}
use indi_engine.Protocol.Known
use indi_engine.Protocol.Properties.{Property, new_element}
use indi_engine.Protocol.Runtime.{Runtime}
use indi_engine.Scripting.Api.{Api}
use indi_engine.Scripting.Api.Wait.{Round}
use indi_engine.Scripting.Runner.{Runner}
use indi_engine.Server.Engine.{Command, World, Engine, Reply}
use indi_engine.Server.Hub.{Hub}
use indi_engine.Transport.Reader

abbrev pub runtime : Runtime
runtime = record {
  Float = ℕ;
  Datetime = ℕ;
  parse_float = λ s. none;
  parse_int = λ s. none;
  from_isoformat = λ s. none;
  b64decode = λ s. none;
  from_string = λ b. none;
}

abbrev pub filter_name : Property runtime
filter_name = record {
  device_name = "Cam";
  name = "FILTER";
  type = PropertyType.text;
  state = PropertyState.busy;
  perm = PropertyPerm.rw;
  timestamp = none;
  label = "Filter";
  group = "Main";
  rule = SwitchRule.unknown;
  elements = ("NAME", new_element "NAME" "Red") ∷ [];
}

abbrev pub filter_ok : Property runtime
filter_ok = record filter_name { state = PropertyState.ok }

abbrev pub client : Client runtime
client = record {
  devices =
      (
        "Cam",
        record {
          name = "Cam";
          properties = ("FILTER", filter_name) ∷ [];
          messages = [];
          device_types = [];
        },
      )
      ∷ [];
  known = Known.add_device "Cam" Known.init;
  state_manager = none;
  transport = Reader.init;
  reader_running = true;
  events = [];
}

abbrev pub runner : Runner ℕ
runner = record {
  registry = record { builtin = ("slew.py", "pass") ∷ []; user = [] };
  runs = [];
  blob_registry = ("Cam", record { run_id = "r0"; capture_params = some 5 }) ∷ [];
  submitted = [];
  broadcasts = [];
}

abbrev pub api : Api runtime ℕ
api = record {
  client = client;
  runner = runner;
  run_id = "r1";
  cancel = false;
  pause_immediate = false;
  pause_deferred = false;
  last_checkpoint = none;
}

-- Half a second of waiting in which the filter becomes ready.
abbrev pub round_at : ℕ → List (Property runtime) → Round runtime
round_at now updates = record { now = now; cancelled = false; paused = false; updates = updates }

abbrev pub frame : Meta
frame = record {
  frame_id = "f1";
  device = "Cam";
  run_id = some "r0";
  timestamp = "t";
  hash = "h";
  size = 3;
  format = ".fits";
  capture = 5 ∷ [];
}

abbrev pub codec : Codec
codec = record {
  sha256 = λ blob. "h";
  decompress = λ blob. none;
  lower = λ s. s;
  without_z = λ s. none;
  dumps = λ m. 123 ∷ [];
  loads = λ text. some frame;
}

abbrev pub world : World runtime ℕ
world = record {
  accepts = λ conn. true;
  indi_takes = true;
  str_bytes = λ b. "";
  show = record { float = λ v. some 1; isoformat = λ t. "" };
  codec = codec;
  compiles = λ s. true;
  utf8_size = λ s. 4;
  new_run_id = "r1";
  no_params = 0;
  scripts_in = λ d. [];
  is_json = λ s. true;
  newest_first = λ metas. metas;
  reconnect = λ c. c;
}

abbrev pub manager : Process
manager = Process.init ("ccd" ∷ []) none true

abbrev pub hub : Hub (Reply runtime ℕ)
hub = record {
  identity = some "here";
  connections =
      (1, record { all = false; devices = "Cam" ∷ [] })
      ∷ (2, record { all = true; devices = [] })
      ∷ [];
  sent = [];
}

abbrev pub engine : Engine runtime process_manager ℕ
engine = record {
  client = some client;
  manager = some manager;
  can_reconnect = true;
  runner = some runner;
  frames = some [];
  name = some "Engine";
  capabilities = [];
  discovery = none;
  hub = hub;
}

abbrev pub command : Command ℕ
command = record {
  type = none;
  action = none;
  device = some "Cam";
  property = none;
  data_type = none;
  elements = [];
  drivers = none;
  name = some "slew";
  params = none;
  run_id = none;
  finish_current = none;
  content = none;
  frame_id = some "f1";
  hash = none;
}
