-- ===== src/Protocol/Text.antt =====
-- Operations on `str` that the protocol layer uses.
use Prim.Native.Char.{Char, code}
use Prim.Native.String.{String}
use indi_engine.Base.{ℕ, Bool, not, ◌&&◌, ◌||◌, Option, none, some, leb, if◌then◌else◌, ◌==◌}
use indi_engine.Base.Numbers.{◌==◌ as nat_eq}

-- The characters that `str.strip` removes.
unfoldable pub is_blank : ℕ → Bool
is_blank c =
    leb 9 c && leb c 13
    || leb 28 c && leb c 32
    || nat_eq c 133
    || nat_eq c 160
    || nat_eq c 5760
    || leb 8192 c && leb c 8202
    || nat_eq c 8232
    || nat_eq c 8233
    || nat_eq c 8239
    || nat_eq c 8287
    || nat_eq c 12288

unfoldable pub strip_left : String → String
unfolding is_blank
strip_left String.[] = String.[]
strip_left (String.◌∷◌ c s) =
    let rest = strip_left s in if is_blank (code c) then rest else String.◌∷◌ c s

abbrev keep_last : Char → String → String
keep_last c String.[] = if is_blank (code c) then String.[] else String.◌∷◌ c String.[]
keep_last c (String.◌∷◌ d s) = String.◌∷◌ c (String.◌∷◌ d s)

unfoldable pub strip_right : String → String
unfolding is_blank
strip_right String.[] = String.[]
strip_right (String.◌∷◌ c s) = keep_last c (strip_right s)

-- s.strip()
unfoldable pub strip : String → String
unfolding strip_left strip_right
strip s = strip_right (strip_left s)

-- `bool(s)`
abbrev pub truthy : String → Bool
truthy s = not (s == "")

-- `text or default`
abbrev pub text_or : Option String → String → String
text_or none default = default
text_or (some s) default = if truthy s then s else default
