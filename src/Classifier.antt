-- ===== src/Classifier.antt =====
-- `classify_device` of indi_engine/indi/device_classifier.py: the roles of a device, from the names of
-- its properties.
use indi_engine.Base.{
  String, Bool, true, false, Option, none, some, List, [], ◌∷◌, ◌≡◌, refl, arith, if◌then◌else◌,
  ◌==◌, eq_iff, Bool-cases, inl, inr,
}
use indi_engine.Base.Dict.{Dict, lookup}
use indi_engine.Base.Names.{member, is_subset}

-- `_ROLE_SIGNATURES`, in the order of `_ROLE_ORDER`
abbrev pub role_signatures : Dict (List (List String))
role_signatures =
    (
      "mount",
      ("TELESCOPE_MOTION_NS" ∷ []) ∷ ("EQUATORIAL_EOD_COORD" ∷ "TELESCOPE_SLEW_RATE" ∷ []) ∷ [],
    )
    ∷ ("camera", ("CCD_EXPOSURE" ∷ []) ∷ ("CCD_FRAME" ∷ "CCD_TEMPERATURE" ∷ []) ∷ [])
    ∷ ("focuser", ("FOCUS_MOTION" ∷ []) ∷ ("ABS_FOCUS_POSITION" ∷ []) ∷ [])
    ∷ ("filter_wheel", ("FILTER_SLOT" ∷ []) ∷ [])
    ∷ ("rotator", ("ABS_ROTATOR_ANGLE" ∷ []) ∷ [])
    ∷ ("dome", ("DOME_MOTION" ∷ []) ∷ ("DOME_SHUTTER" ∷ []) ∷ [])
    ∷ ("weather", ("WEATHER_STATUS" ∷ []) ∷ ("WEATHER_UPDATE" ∷ []) ∷ [])
    ∷ ("gps", ("GPS_REFRESH" ∷ []) ∷ ("SYSTEM_TIME_UPDATE" ∷ []) ∷ [])
    ∷ []

-- The inner loop, with its `break`: a signature is a subset of the names.
unfoldable pub has_signature : List (List String) → List String → Bool
has_signature [] names = false
has_signature (required ∷ more) names =
    let rest = has_signature more names in if is_subset required names then true else rest

unfoldable pub roles_of : Dict (List (List String)) → List String → List String
roles_of [] names = []
roles_of ((role, signatures) ∷ more) names =
    let rest = roles_of more names in if has_signature signatures names then role ∷ rest else rest

-- `classify_device`
unfoldable pub classify_device : List String → List String
classify_device names = roles_of role_signatures names

is_subset-grows :
    (xs names more : List String)
    → ((x : String) → member x names ≡ true → member x more ≡ true)
    → is_subset xs names ≡ true
    → is_subset xs more ≡ true
unfolding is_subset
is_subset-grows [] names more grows h = refl
is_subset-grows (x ∷ xs) names more grows h =
    ground (arith, grows x, is_subset-grows xs names more grows, h)

has_signature-grows :
    (signatures : List (List String)) (names more : List String)
    → ((x : String) → member x names ≡ true → member x more ≡ true)
    → has_signature signatures names ≡ true
    → has_signature signatures more ≡ true
unfolding has_signature
has_signature-grows [] names more grows h = absurd (ground (arith, h))
has_signature-grows (s ∷ signatures) names more grows h =
    ground (
      arith,
      is_subset-grows s names more grows,
      has_signature-grows signatures names more grows,
      h,
    )

roles_of-grows :
    (table : Dict (List (List String))) (names more : List String) (role : String)
    → ((x : String) → member x names ≡ true → member x more ≡ true)
    → member role (roles_of table names) ≡ true
    → member role (roles_of table more) ≡ true
unfolding roles_of member
roles_of-grows [] names more role grows h = h
roles_of-grows ((r, signatures) ∷ table) names more role grows h = ground (
  arith,
  has_signature-grows signatures names more grows,
  roles_of-grows table names more role grows,
  h,
)

-- A device that gets more properties loses no role.
pub classify_device-grows :
    (names more : List String) (role : String)
    → ((x : String) → member x names ≡ true → member x more ≡ true)
    → member role (classify_device names) ≡ true
    → member role (classify_device more) ≡ true
unfolding classify_device
classify_device-grows names more role grows h =
    roles_of-grows role_signatures names more role grows h

-- Every role stands in the table once.
abbrev IsKeyed : Dict (List (List String)) → Type 0
IsKeyed [] = Unit
IsKeyed ((role, signatures) ∷ table) = (lookup role table ≡ none) × IsKeyed table

abbrev pub signatures_of : Option (List (List String)) → List (List String)
signatures_of none = []
signatures_of (some signatures) = signatures

roles_of-member :
    (table : Dict (List (List String))) (names : List String) (role : String)
    → IsKeyed table
    → member role (roles_of table names) ≡ has_signature (signatures_of (lookup role table)) names
unfolding roles_of member lookup has_signature
roles_of-member [] names role keyed = refl
roles_of-member ((r, signatures) ∷ table) names role (fresh, keyed) =
    elim (Bool-cases (r == role)) [
      | inl here ↦
          let same : r ≡ role = (eq_iff r role).0 here in
          ground (arith, here, same, fresh, roles_of-member table names r keyed)
      | inr other ↦ ground (arith, other, roles_of-member table names role keyed)
    ]

-- A device has a role exactly when one of the role's signatures is a subset of the device's property
-- names.
pub classify_device-member :
    (names : List String) (role : String)
    → member role (classify_device names)
      ≡ has_signature (signatures_of (lookup role role_signatures)) names
unfolding classify_device
classify_device-member names role =
    roles_of-member role_signatures names role
      (unfold lookup in (refl, (refl, (refl, (refl, (refl, (refl, (refl, (refl, tt)))))))))
