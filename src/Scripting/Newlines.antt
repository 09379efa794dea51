-- ===== src/Scripting/Newlines.antt =====
-- The newlines of a text file that `read_text` of `pathlib.Path` reads, for
-- indi_engine/scripting/registry.py.
use Prim.Native.Char.{code}
use indi_engine.Base.{
  String, Bool, true, false, ◌&&◌, ◌||◌, ◌≡◌, refl, arith, if◌then◌else◌, branches, Bool-cases, inl,
  inr,
}
use indi_engine.Base.Numbers.{◌==◌ as nat_eq}

-- Whether a text has a carriage return
unfoldable pub has_cr : String → Bool
has_cr String.[] = false
has_cr (String.◌∷◌ c s) = nat_eq (code c) 13 || has_cr s

-- What `read_text` makes of the newlines of a file, which `write_text` wrote as they were: "\r\n" and
-- "\r" become "\n". The flag says whether the character before is a carriage return.
unfoldable pub universal_newlines : Bool → String → String
universal_newlines after_cr String.[] = String.[]
universal_newlines after_cr (String.◌∷◌ c s) =
    let after = universal_newlines true s in
    let plain = universal_newlines false s in
    if nat_eq (code c) 13
    then String.◌∷◌ "\n" after
    else if nat_eq (code c) 10 && after_cr
    then plain
    else String.◌∷◌ c plain

-- `read_text` of a file with this text
abbrev pub read_text : String → String
read_text source = universal_newlines false source

pub universal_newlines-has_cr :
    (after_cr : Bool) (s : String) → has_cr (universal_newlines after_cr s) ≡ false
unfolding has_cr universal_newlines
universal_newlines-has_cr after_cr String.[] = refl
universal_newlines-has_cr after_cr (String.◌∷◌ c s) = elim (Bool-cases (nat_eq (code c) 13)) [
  | inl cr ↦ rw cr (universal_newlines-has_cr true s)
  | inr other ↦ rw other (
      branches (λ t. has_cr t ≡ false) (nat_eq (code c) 10 && after_cr) _ _
        (universal_newlines-has_cr false s) (rw other (universal_newlines-has_cr false s)))
]

pub read_text-same : (s : String) → has_cr s ≡ false → read_text s ≡ s
unfolding has_cr universal_newlines
read_text-same String.[] clean = refl
read_text-same (String.◌∷◌ c s) clean = ground (arith, clean, read_text-same s)
