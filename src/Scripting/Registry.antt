-- ===== src/Scripting/Registry.antt =====
-- `ScriptRegistry` of indi_engine/scripting/registry.py over two directories of files, each a map
-- from file names to texts. `check_syntax` and the size of a text in UTF-8 are parameters.
use Prim.Native.Char.{code}
use Prim.Native.String.{◌++◌ as ◌+s◌}
use indi_engine.Base.{
  ℕ, ◌<◌, ◌≢◌, ◌⊎◌, String, Bool, true, false, not, ◌&&◌, ◌||◌, Option, none, some, List, [], ◌∷◌,
  ◌++◌, ◌≡◌, refl, arith, if◌then◌else◌, ◌==◌, eq_iff, leb, ltb, ◌*◌, Bool-cases, inl, inr, ap, sym,
  ◌∙◌, ◌↔◌,
}
use indi_engine.Base.Dict.{Dict, lookup, insert, remove, has_key, lookup-insert, lookup-remove}
use indi_engine.Scripting.Newlines.{has_cr, read_text, universal_newlines-has_cr, read_text-same}
use indi_engine.Base.Numbers.{◌==◌ as nat_eq}
use indi_engine.Base.Result.{
  Result, ok, err, value_error, file_not_found, permission_error, syntax_error, err-ne-ok,
}

abbrev pub max_script_size : ℕ
max_script_size = 64 * 1024

-- The class of the pattern `_VALID_NAME`
unfoldable pub is_name_char : ℕ → Bool
is_name_char c =
    leb 97 c && leb c 122
    || leb 65 c && leb c 90
    || leb 48 c && leb c 57
    || nat_eq c 95
    || nat_eq c 45

-- What the class and `$` match behind the first character: `$` also stands before a newline at the end.
unfoldable pub matches_rest : String → Bool
matches_rest String.[] = true
matches_rest (String.◌∷◌ c s) =
    let rest = matches_rest s in nat_eq (code c) 10 && s == "" || is_name_char (code c) && rest

-- `_VALID_NAME.match(name)`
unfoldable pub is_valid_name : String → Bool
is_valid_name String.[] = false
is_valid_name (String.◌∷◌ c s) = is_name_char (code c) && matches_rest s

pub record Registry : Type 0 where
  pub builtin : Dict String
  pub user : Dict String

abbrev pub file_of : String → String
file_of name = name +s ".py"

abbrev pub first_of : Option String → Option String → Result String
first_of (some source) other = ok (read_text source)
first_of none (some source) = ok (read_text source)
first_of none none = err file_not_found

-- `load`
unfoldable pub load : String → Registry → Result String
load name r =
    if not (is_valid_name name)
    then err value_error
    else first_of (lookup (file_of name) r.user) (lookup (file_of name) r.builtin)

-- `describe`, as far as the choice of the file: the flag `builtin` and the source
abbrev pub first_entry : Option String → Option String → Result (Bool × String)
first_entry (some source) other = ok (true, read_text source)
first_entry none (some source) = ok (false, read_text source)
first_entry none none = err file_not_found

unfoldable pub describe : String → Registry → Result (Bool × String)
describe name r =
    if not (is_valid_name name)
    then err value_error
    else first_entry (lookup (file_of name) r.builtin) (lookup (file_of name) r.user)

abbrev entries : Bool → List (String × String) → List (Bool × String × String)
entries builtin [] = []
entries builtin ((stem, source) ∷ more) = (builtin, stem, read_text source) ∷ entries builtin more

-- `list`, without the metadata of YAML; `scripts` gives the stems and the sources of the files `*.py` of a
-- directory, by name.
unfoldable pub list :
    (Dict String → List (String × String)) → Registry → List (Bool × String × String)
list scripts r = entries true (scripts r.builtin) ++ entries false (scripts r.user)

-- `save`; `utf8_size` is the number of bytes of a text, `compiles` says whether `check_syntax`
-- accepts it.
unfoldable pub save :
    (String → ℕ) → (String → Bool) → String → String → Registry → Result (Unit {0}) × Registry
save utf8_size compiles name source r =
    if not (is_valid_name name)
    then (err value_error, r)
    else if ltb max_script_size (utf8_size source)
    then (err value_error, r)
    else if not (compiles source)
    then (err syntax_error, r)
    else (ok tt, record r { user = insert (file_of name) source r.user })

-- `delete`
unfoldable pub delete : String → Registry → Result (Unit {0}) × Registry
delete name r =
    if not (is_valid_name name)
    then (err value_error, r)
    else if has_key (file_of name) r.builtin
    then (err permission_error, r)
    else if not (has_key (file_of name) r.user)
    then (err file_not_found, r)
    else (ok tt, record r { user = remove (file_of name) r.user })

save-saved :
    (utf8_size : String → ℕ) (compiles : String → Bool) (name source : String) (r : Registry)
    → (save utf8_size compiles name source r).0 ≡ ok tt
    → (is_valid_name name ≡ true)
      × ((save utf8_size compiles name source r).1
          ≡ record r { user = insert (file_of name) source r.user })
unfolding save
save-saved utf8_size compiles name source r saved = elim (Bool-cases (not (is_valid_name name))) [
  | inl invalid ↦ absurd (err-ne-ok (rw invalid at saved))
  | inr valid ↦ elim (Bool-cases (ltb max_script_size (utf8_size source))) [
    | inl large ↦ absurd (err-ne-ok (rw (valid, large) at saved))
    | inr fits ↦ elim (Bool-cases (not (compiles source))) [
      | inl bad ↦ absurd (err-ne-ok (rw (valid, fits, bad) at saved))
      | inr good ↦ (ground (arith, valid), rw (valid, fits, good) refl)
    ]
  ]
]

-- After a `save` that does not raise, `load` of that name gives a source without carriage returns, also
-- when a builtin script has the same name. It is the saved source exactly if that has no carriage return.
-- What `load` gives of the scripts under other file names is as before.
pub load-save :
    (utf8_size : String → ℕ) (compiles : String → Bool) (name source other : String) (r : Registry)
    → (save utf8_size compiles name source r).0 ≡ ok tt
    → file_of name ≢ file_of other
    → let r' = (save utf8_size compiles name source r).1 in
      ((loaded : String) × (load name r' ≡ ok loaded)
        × (has_cr loaded ≡ false)
        × (loaded ≡ source ↔ has_cr source ≡ false))
      × (load other r' ≡ load other r)
unfolding load save
load-save utf8_size compiles name source other r saved apart =
    let (valid, same) = save-saved utf8_size compiles name source r saved in
    let file = file_of name in
    let off : (file == file_of other) ≡ false = ground (arith, eq_iff file (file_of other)) in
    let clean = universal_newlines-has_cr false source in
    rw same (
      (
        read_text source,
        rw (valid, lookup-insert file file source r.user, (eq_iff file file).1 refl) refl,
        clean,
        (λ back. ap has_cr (sym back) ∙ clean, read_text-same source),
      ),
      rw (lookup-insert file (file_of other) source r.user, off) refl,
    )

-- `save` refuses: an invalid name, a source over the size limit or one that does not compile leaves
-- both directories as they are.
pub save-refused :
    (utf8_size : String → ℕ) (compiles : String → Bool) (name source : String) (r : Registry)
    → is_valid_name name ≡ false ⊎ (max_script_size < utf8_size source) ⊎ compiles source ≡ false
    → (save utf8_size compiles name source r).1 ≡ r
unfolding save
save-refused utf8_size compiles name source r reason = ground arith

-- `delete` after `save`: a script that no builtin has the name of is gone, and `load` raises
-- FileNotFoundError; one that shadows a builtin stays, and `delete` raises PermissionError.
pub delete-save :
    (utf8_size : String → ℕ) (compiles : String → Bool) (name source : String) (r : Registry)
    → (save utf8_size compiles name source r).0 ≡ ok tt
    → let r' = (save utf8_size compiles name source r).1 in
      (has_key (file_of name) r.builtin ≡ false
        → ((delete name r').0 ≡ ok tt) × (load name (delete name r').1 ≡ err file_not_found))
      × (has_key (file_of name) r.builtin ≡ true → delete name r' ≡ (err permission_error, r'))
unfolding load save delete
delete-save utf8_size compiles name source r saved =
    let (valid, same) = save-saved utf8_size compiles name source r saved in
    let file = file_of name in
    let here : lookup file (insert file source r.user) ≡ some source =
      ground (arith, lookup-insert file file source r.user, eq_iff file file) in
    let gone : lookup file (remove file (insert file source r.user)) ≡ none =
      ground (arith, lookup-remove file file (insert file source r.user), eq_iff file file) in
    rw same (
      λ own.
          let absent : lookup file r.builtin ≡ none = ground (arith, own) in
          (rw (valid, absent, here) refl, rw (valid, absent, here, gone, absent) refl),
      λ builtin. rw (valid, builtin) refl,
    )

abbrev pub source_of : Result (Bool × String) → Result String
source_of (ok entry) = ok (entry.1)
source_of (err e) = err e

-- `describe` is about the source that `load` gives, unless a user script has the name of a builtin:
-- then, the name being valid, `load` gives the user's source and `describe` tells of the builtin.
pub describe-load :
    (name mine theirs : String) (r : Registry)
    → ((lookup (file_of name) r.user ≡ none) ⊎ (lookup (file_of name) r.builtin ≡ none)
        → source_of (describe name r) ≡ load name r)
      × (is_valid_name name ≡ true
          → lookup (file_of name) r.user ≡ some mine
          → lookup (file_of name) r.builtin ≡ some theirs
          → (load name r ≡ ok (read_text mine)) × (describe name r ≡ ok (true, read_text theirs)))
unfolding describe load
describe-load name mine theirs r = (
  λ one. ground (arith, one),
  λ valid own shipped. (rw (valid, own) refl, rw (valid, shipped) refl),
)
