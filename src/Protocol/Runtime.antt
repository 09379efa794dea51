-- ===== src/Protocol/Runtime.antt =====
-- What the protocol layer takes from Python's own modules: floating-point numbers, dates, base64
-- and the XML reader. The program compares and computes with none of them; it only converts.
use indi_engine.Base.{String, Option, List}
use indi_engine.Base.Dict.{Dict}
use indi_engine.Base.Int.{ℤ}
use indi_engine.Transport.Bytes.{Bytes}

-- A child of an XML element: the program reads its attributes and its text.
pub record XmlChild : Type 0 where
  pub tag : String
  pub attributes : Dict String
  pub text : Option String

-- A parsed XML message.
pub record XmlElement : Type 0 where
  pub tag : String
  pub attributes : Dict String
  pub children : List XmlChild

-- `none` stands for an exception: ValueError of `float`, `int` and `fromisoformat`, ParseError of
-- `ET.fromstring`, and whatever `b64decode` raises.
pub record Runtime : Type 1 where
  pub Float : Type 0
  pub Datetime : Type 0
  pub parse_float : String → Option Float
  pub parse_int : String → Option ℤ
  pub from_isoformat : String → Option Datetime
  pub b64decode : String → Option Bytes
  pub from_string : Bytes → Option XmlElement
