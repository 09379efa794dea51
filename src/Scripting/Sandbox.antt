-- ===== src/Scripting/Sandbox.antt =====
-- indi_engine/scripting/sandbox.py: which modules a script may import, and the names that it sees.
-- RestrictedPython's `safe_builtins` and `safe_globals` and Python's own builtins are given; `V` has
-- their values.
pub mod Names
use Prim.Native.String
use indi_engine.Base.{
  String, Bool, true, false, Option, none, some, List, [], ◌∷◌, if◌then◌else◌, ◌==◌,
}
use indi_engine.Base.Dict.{Dict, lookup, insert, remove, has_key}
use indi_engine.Base.Names.{member}
use indi_engine.Base.Result.{Result, ok, err, import_error}

-- `ALLOWED_MODULES`
abbrev pub allowed_modules : List String
allowed_modules =
    "math" ∷ "cmath" ∷ "decimal" ∷ "fractions" ∷ "statistics" ∷ "datetime" ∷ "time" ∷ "astropy"
    ∷ "astroquery" ∷ "fitsio" ∷ "numpy" ∷ "scipy" ∷ []

-- `_EXTRA_SAFE_BUILTINS`
abbrev pub extra_safe_builtins : List String
extra_safe_builtins =
    "abs" ∷ "all" ∷ "any" ∷ "bin" ∷ "bool" ∷ "bytes" ∷ "callable" ∷ "chr" ∷ "complex" ∷ "dict"
    ∷ "dir" ∷ "divmod" ∷ "enumerate" ∷ "filter" ∷ "float" ∷ "format" ∷ "frozenset" ∷ "getattr"
    ∷ "hasattr" ∷ "hash" ∷ "hex" ∷ "int" ∷ "isinstance" ∷ "issubclass" ∷ "iter" ∷ "len" ∷ "list"
    ∷ "map" ∷ "max" ∷ "min" ∷ "next" ∷ "oct" ∷ "ord" ∷ "pow" ∷ "print" ∷ "range" ∷ "repr"
    ∷ "reversed" ∷ "round" ∷ "set" ∷ "slice" ∷ "sorted" ∷ "str" ∷ "sum" ∷ "tuple" ∷ "type" ∷ "zip"
    ∷ []

abbrev pub dangerous : List String
dangerous = "open" ∷ "exec" ∷ "eval" ∷ "compile" ∷ "input" ∷ []

-- name.split(".")[0]
unfoldable pub top_module : String → String
top_module String.[] = ""
top_module (String.◌∷◌ c s) =
    let rest = top_module s in
    let here = String.◌∷◌ c String.[] in if here == "." then "" else String.◌++◌ here rest

-- `safe_import`: the name that goes to the real `__import__`
unfoldable pub safe_import : String → Result String
safe_import name = if member (top_module name) allowed_modules then ok name else err import_error

-- A builtin of a script: a value of Python or of RestrictedPython, or `safe_import`
pub data Builtin (V : Type 0) : Type 0 where
  python : V → Builtin V
  safe_importer : Builtin V

-- A global name of a script
pub data Global (V : Type 0) : Type 0 where
  given : V → Global V
  plain_getitem plain_iter print_collector : Global V
  builtins : Dict (Builtin V) → Global V

module _ {V : Type 0} where
  abbrev with_function : String → Option V → Dict (Builtin V) → Dict (Builtin V)
  with_function name none bs = bs
  with_function name (some f) bs = insert name (python f) bs

  -- The loop over `_EXTRA_SAFE_BUILTINS`; `real` is `getattr(_builtins_module, name, None)`.
  unfoldable pub add_extra : (String → Option V) → List String → Dict (Builtin V) → Dict (Builtin V)
  add_extra real [] bs = bs
  add_extra real (name ∷ names) bs =
      add_extra real names (if has_key name bs then bs else with_function name (real name) bs)

  -- The loop of `builtins.pop`
  unfoldable pub drop_names : List String → Dict (Builtin V) → Dict (Builtin V)
  drop_names [] bs = bs
  drop_names (name ∷ names) bs = drop_names names (remove name bs)

  unfoldable pub copied : Dict V → Dict (Builtin V)
  copied [] = []
  copied ((k, v) ∷ d) = (k, python v) ∷ copied d

  -- The builtins of `make_restricted_globals`
  unfoldable pub script_builtins : Dict V → (String → Option V) → Dict (Builtin V)
  script_builtins safe_builtins real =
      insert "__import__" safe_importer
        (drop_names dangerous (add_extra real extra_safe_builtins (copied safe_builtins)))

  abbrev pub all_given : Dict V → Dict (Global V)
  all_given [] = []
  all_given ((k, v) ∷ d) = (k, given v) ∷ all_given d

  abbrev pub or_insert : String → Global V → Dict (Global V) → Dict (Global V)
  or_insert k v g = if has_key k g then g else insert k v g

  -- g.update(script_context)
  unfoldable pub update_all : Dict V → Dict (Global V) → Dict (Global V)
  update_all [] g = g
  update_all ((k, v) ∷ d) g = update_all d (insert k (given v) g)

  -- `make_restricted_globals`
  unfoldable pub make_restricted_globals :
      Dict V → Dict V → (String → Option V) → Dict V → Dict (Global V)
  make_restricted_globals safe_globals safe_builtins real script_context =
      update_all script_context (
        insert "__builtins__" (builtins (script_builtins safe_builtins real)) (
          insert "_print_" print_collector (
            or_insert "_getiter_" plain_iter
              (or_insert "_getitem_" plain_getitem (all_given safe_globals)))))
