-- ===== src/Protocol/Client/Send/Escape.antt =====
-- `_escape_xml` against a description of each character by itself.
use Prim.Native.Char.{Char}
use Prim.Native.String.{◌++◌ as ◌+s◌}
use Prim.Native.String.append
use text.Mathlib.TextLemmas.{append_assoc}
use indi_engine.Base.{String, ◌≡◌, refl, sym, ◌∙◌, if◌then◌else◌, ◌==◌, Bool-cases, inl, inr, ap}
use indi_engine.Protocol.Client.Send.{replace, escape_xml}

abbrev one : Char → String
one c = String.◌∷◌ c String.[]

-- What one character of a text becomes in XML.
unfoldable pub escape_char : Char → String
escape_char c =
    if one c == "&"
    then "&amp;"
    else if one c == "<"
    then "&lt;"
    else if one c == ">"
    then "&gt;"
    else if one c == "\""
    then "&quot;"
    else if one c == "'"
    then "&apos;"
    else one c

unfoldable pub escape_each : String → String
escape_each String.[] = ""
escape_each (String.◌∷◌ c s) = escape_char c +s escape_each s

cons-append : (c : Char) (s t : String) → String.◌∷◌ c s +s t ≡ String.◌∷◌ c (s +s t)
cons-append c s t = append.cons c s t

nil-append : (t : String) → "" +s t ≡ t
nil-append t = append.nil t

replace-append : (c by s t : String) → replace c by (s +s t) ≡ replace c by s +s replace c by t
unfolding replace
replace-append c by String.[] t = rw (nil-append t, nil-append (replace c by t)) refl
replace-append c by (String.◌∷◌ d s) t = elim (Bool-cases (one d == c)) [
  | inl same ↦
      rw (cons-append d s t, same, replace-append c by s t)
        (sym (append_assoc by (replace c by s) (replace c by t)))
  | inr other ↦
      rw (cons-append d s t, other, replace-append c by s t)
        (sym (cons-append d (replace c by s) (replace c by t)))
]

escape-append : (s t : String) → escape_xml (s +s t) ≡ escape_xml s +s escape_xml t
unfolding escape_xml
escape-append s t =
    rw (replace-append, replace-append, replace-append, replace-append, replace-append) refl

escape_one : (c : Char) → escape_xml (one c) ≡ escape_char c
unfolding escape_xml escape_char replace
escape_one c = elim (Bool-cases (one c == "&")) [
  | inl amp ↦ rw amp refl
  | inr not_amp ↦ elim (Bool-cases (one c == "<")) [
    | inl lt ↦ rw (not_amp, lt) refl
    | inr not_lt ↦ elim (Bool-cases (one c == ">")) [
      | inl gt ↦ rw (not_amp, not_lt, gt) refl
      | inr not_gt ↦ elim (Bool-cases (one c == "\"")) [
        | inl quote ↦ rw (not_amp, not_lt, not_gt, quote) refl
        | inr not_quote ↦ elim (Bool-cases (one c == "'")) [
          | inl apos ↦ rw (not_amp, not_lt, not_gt, not_quote, apos) refl
          | inr plain ↦ rw (not_amp, not_lt, not_gt, not_quote, plain) refl
        ]
      ]
    ]
  ]
]

-- The five replacements, one after the other on the whole text, give what escaping each character by
-- itself gives: no replacement touches what another has put in.
pub escape_xml-each : (s : String) → escape_xml s ≡ escape_each s
unfolding escape_each escape_xml replace
escape_xml-each String.[] = refl
escape_xml-each (String.◌∷◌ c s) =
    ap escape_xml (sym (cons-append c "" s ∙ ap (λ t. String.◌∷◌ c t) (nil-append s)))
    ∙ escape-append (one c) s
    ∙ rw (escape_one c, escape_xml-each s) refl
