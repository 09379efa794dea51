-- ===== src/Protocol/Parser/Elements.antt =====
-- What the dictionary of elements of a parsed message holds.
use indi_engine.Base.{String, ◌&&◌, Option, none, some, List, [], ◌∷◌, ◌≡◌, if◌then◌else◌, ◌==◌}
use indi_engine.Base.Dict.{Dict, lookup}
use indi_engine.Base.Result.{Result, ok}
use indi_engine.Protocol.Message.{ElementData, MessageData}
use indi_engine.Protocol.Properties.{Value}
use indi_engine.Protocol.Runtime.{Runtime, XmlChild}

-- The dictionary of the last child with this tag whose name is `k`, or the one given.
abbrev pub last_named :
    (XmlChild → ElementData)
    → String
    → String
    → List XmlChild
    → Option ElementData
    → Option ElementData
last_named g tag k [] o = o
last_named g tag k (c ∷ cs) o =
    last_named g tag k cs (if c.tag == tag && (g c).name == k then some (g c) else o)

abbrev pub optionally {ℓ κ} : {A : Type ℓ} {B : Type κ} → (A → B) → Option A → Option B
optionally f none = none
optionally f (some a) = some (f a)

abbrev given : String → Option String → String
given default none = default
given default (some s) = s

-- An attribute of a child, "" where it has none
abbrev pub attribute : String → XmlChild → String
attribute key c = given "" (lookup key c.attributes)

-- The text of a child, or a default where it has none or an empty one
abbrev pub inner : String → Option String → String
inner default none = default
inner default (some s) = if s == "" then default else s

-- The last child with this tag and this name, or the one given
abbrev pub last_child : String → String → List XmlChild → Option XmlChild → Option XmlChild
last_child tag k [] o = o
last_child tag k (c ∷ cs) o =
    last_child tag k cs (if c.tag == tag && attribute "name" c == k then some c else o)

-- The label and the value of an element
abbrev pub shown : ElementData → String × Value
shown e = (e.label, e.value)

-- A message that was read without an exception, in which a name stands for the last child with the tag and
-- this name, with the label that this child has and a value read from it, and for nothing if there is none
abbrev pub IsRead :
    Result MessageData → String → (XmlChild → Value) → String → List XmlChild → Type 0
IsRead r k value tag cs =
    (m : MessageData) × (r ≡ ok m)
    × (optionally shown (lookup k m.elements)
        ≡ optionally (λ c. (attribute "label" c, value c)) (last_child tag k cs none))
