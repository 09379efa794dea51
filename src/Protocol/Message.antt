-- ===== src/Protocol/Message.antt =====
-- `IndiMessage` and the dictionaries that the parser puts into its `data`, of
-- indi_engine/indi/protocol/parser.py. A key that a message type does not set is `none`.
use indi_engine.Base.{String, Option, none, []}
use indi_engine.Base.Dict.{Dict}
use indi_engine.Base.Int.{ℤ}
use indi_engine.Protocol.Constants.{MessageType}
use indi_engine.Protocol.Properties.{Value}
use indi_engine.Protocol.Runtime.{Runtime}

pub record ElementData : Type 0 where
  pub name : String
  pub label : String
  pub value : Value
  pub min : Option String
  pub max : Option String
  pub step : Option String
  pub format : Option String
  pub blob_format : Option String
  pub blob_size : Option ℤ

pub record MessageData : Type 0 where
  pub type : Option String
  pub state : Option String
  pub perm : Option String
  pub rule : Option String
  pub label : Option String
  pub group : Option String
  pub elements : Dict ElementData
  pub message : Option String
  pub property : Option String
  pub device : Option String

abbrev pub no_data : MessageData
no_data = record {
  type = none;
  state = none;
  perm = none;
  rule = none;
  label = none;
  group = none;
  elements = [];
  message = none;
  property = none;
  device = none;
}

pub record Message (py : Runtime) : Type 0 where
  pub message_type : MessageType
  pub device_name : String
  pub property_name : String
  pub timestamp : Option (py.Datetime)
  pub contents : MessageData
