-- ===== src/Server/Json.antt =====
-- The values that the engine's messages are made of: what `json.dumps` of Python writes, and bytes,
-- which it refuses.
use indi_engine.Base.{
  String, Bool, true, false, ◌&&◌, Option, none, some, List, [], ◌∷◌, if◌then◌else◌, ◌==◌,
}
use indi_engine.Base.Int.{ℤ}
use indi_engine.Protocol.Properties.{Value}
use indi_engine.Protocol.Runtime.{Runtime}
use indi_engine.Transport.Bytes.{Bytes}

mutual
  pub data Json (py : Runtime) : Type 0 where
    null : Json py
    flag : Bool → Json py
    number : py.Float → Json py
    integer : ℤ → Json py
    text : String → Json py
    raw : Bytes → Json py
    array : Items py → Json py
    object : Fields py → Json py

  pub data Items (py : Runtime) : Type 0 where
    nil : Items py
    item : Json py → Items py → Items py

  -- A `dict`, in the order of insertion
  pub data Fields (py : Runtime) : Type 0 where
    end : Fields py
    field : String → Json py → Fields py → Fields py

module _ {py : Runtime} where
  -- dict.get(key)
  unfoldable pub get : String → Fields py → Option (Json py)
  get key end = none
  get key (field k v fs) = if k == key then some v else get key fs

  -- {**fs, **gs}, of dicts without a common key
  abbrev pub join : Fields py → Fields py → Fields py
  join end gs = gs
  join (field k v fs) gs = field k v (join fs gs)

  -- {k: v for k, v in fs.items() if k != key}
  unfoldable pub without : String → Fields py → Fields py
  without key end = end
  without key (field k v fs) =
      let rest = without key fs in if k == key then rest else field k v rest

  abbrev pub texts : List String → Items py
  texts [] = nil
  texts (s ∷ ss) = item (text s) (texts ss)

  -- `str`, `bytes` and None as they are
  abbrev pub of_value : Value → Json py
  of_value (Value.text s) = text s
  of_value (Value.bytes b) = raw b

  abbrev pub or_null {ℓ} : {A : Type ℓ} → (A → Json py) → Option A → Json py
  or_null show none = null
  or_null show (some a) = show a

unfoldable mutual
  -- Whether `json.dumps` takes the value: bytes it refuses with TypeError.
  pub is_serializable : {py : Runtime} → Json py → Bool
  is_serializable null = true
  is_serializable (flag b) = true
  is_serializable (number x) = true
  is_serializable (integer i) = true
  is_serializable (text s) = true
  is_serializable (raw b) = false
  is_serializable (array xs) = are_serializable xs
  is_serializable (object fs) = have_serializable fs

  pub are_serializable : {py : Runtime} → Items py → Bool
  are_serializable nil = true
  are_serializable (item x xs) = is_serializable x && are_serializable xs

  pub have_serializable : {py : Runtime} → Fields py → Bool
  have_serializable end = true
  have_serializable (field k v fs) = is_serializable v && have_serializable fs
