-- ===== src/Scripting/Sandbox/Names.antt =====
-- The names that a script of indi_engine/scripting/sandbox.py finds.
use indi_engine.Base.{
  String, Bool, true, false, ◌||◌, Option, none, some, List, [], ◌∷◌, ◌≡◌, refl, sym, ◌∙◌, arith,
  if◌then◌else◌, ◌==◌, eq_iff, Bool-cases, Option-cases, inl, inr,
}
use indi_engine.Base.Dict.{Dict, lookup, insert, remove, has_key, lookup-insert, lookup-remove}
use indi_engine.Base.Names.{member}
use indi_engine.Scripting.Sandbox.{
  Builtin, python, safe_importer, Global, given, builtins, extra_safe_builtins, dangerous,
  with_function, add_extra, drop_names, copied, script_builtins, update_all,
  make_restricted_globals,
}

module _ {V : Type 0} where
  abbrev pub as_builtin : Option V → Option (Builtin V)
  as_builtin none = none
  as_builtin (some v) = some (python v)

  abbrev pub or_else : Option (Builtin V) → Option (Builtin V) → Option (Builtin V)
  or_else none later = later
  or_else (some b) later = some b

  copied-lookup : (k : String) (d : Dict V) → lookup k (copied d) ≡ as_builtin (lookup k d)
  unfolding copied lookup
  copied-lookup k [] = refl
  copied-lookup k ((j, v) ∷ d) = ground (arith, copied-lookup k d)

  drop_names-lookup :
      (k : String) (names : List String) (bs : Dict (Builtin V))
      → lookup k (drop_names names bs) ≡ (if member k names then none else lookup k bs)
  unfolding drop_names member
  drop_names-lookup k [] bs = refl
  drop_names-lookup k (name ∷ names) bs =
      ground (arith, drop_names-lookup k names (remove name bs), lookup-remove name k bs)

  or_else-none : (o : Option (Builtin V)) → or_else o none ≡ o
  or_else-none none = refl
  or_else-none (some b) = refl

  or_else-twice :
      (o later : Option (Builtin V)) (here there : Bool)
      → or_else (or_else o (if here then later else none)) (if there then later else none)
        ≡ or_else o (if here || there then later else none)
  or_else-twice none none true there = ground arith
  or_else-twice none (some b) true there = refl
  or_else-twice none later false there = refl
  or_else-twice (some b) later here there = refl

  add_one :
      (k name : String) (real : String → Option V) (bs : Dict (Builtin V))
      → lookup k (if has_key name bs then bs else with_function name (real name) bs)
        ≡ or_else (lookup k bs) (if name == k then as_builtin (real k) else none)
  add_one k name real bs = elim (Bool-cases (name == k)) [
    | inl same ↦
        let here : name ≡ k = (eq_iff name k).0 same in
        rw here (elim (Option-cases (lookup k bs)) [
          | inl absent ↦ elim (Option-cases (real k)) [
            | inl unknown ↦ rw (absent, unknown) (ground (arith, absent, eq_iff k k))
            | inr (f, known) ↦
                rw (absent, known) (ground (arith, lookup-insert k k (python f) bs, eq_iff k k))
          ]
          | inr (b, there) ↦ rw there there
        ])
    | inr other ↦ elim (Option-cases (lookup name bs)) [
      | inl absent ↦ elim (Option-cases (real name)) [
        | inl unknown ↦ rw (absent, unknown, other) (sym (or_else-none (lookup k bs)))
        | inr (f, known) ↦
            rw (absent, known, other)
              (lookup-insert name k (python f) bs ∙ rw other (sym (or_else-none (lookup k bs))))
      ]
      | inr (b, there) ↦ rw (there, other) (sym (or_else-none (lookup k bs)))
    ]
  ]

  add_extra-lookup :
      (k : String) (real : String → Option V) (names : List String) (bs : Dict (Builtin V))
      → lookup k (add_extra real names bs)
        ≡ or_else (lookup k bs) (if member k names then as_builtin (real k) else none)
  unfolding add_extra member
  add_extra-lookup k real [] bs = sym (or_else-none (lookup k bs))
  add_extra-lookup k real (name ∷ names) bs =
      add_extra-lookup k real names _
      ∙ rw (add_one k name real bs)
          (or_else-twice (lookup k bs) (as_builtin (real k)) (name == k) (member k names))

  update_all-lookup :
      (k : String) (d : Dict V) (g : Dict (Global V))
      → lookup k d ≡ none
      → lookup k (update_all d g) ≡ lookup k g
  unfolding update_all lookup
  update_all-lookup k [] g absent = refl
  update_all-lookup k ((j, v) ∷ d) g absent =
      ground
        (arith, absent, update_all-lookup k d (insert j (given v) g), lookup-insert j k (given v) g)

  -- The builtins of a script, for any builtins of RestrictedPython and of Python: `open`, `exec`, `eval`,
  -- `compile` and `input` are absent; `__import__` is the guarded one; and any other name is
  -- RestrictedPython's or, if that has none and the name is on the list of extra names, Python's own. They
  -- are the script's `__builtins__`, if the context that it is given has no such name.
  pub script_builtins-names :
      (k : String) (safe_globals safe_builtins script_context : Dict V) (real : String → Option V)
      → lookup "__builtins__" script_context ≡ none
      → (lookup k (script_builtins safe_builtins real) ≡ (
          if k == "__import__"
          then some safe_importer
          else if member k dangerous
          then none
          else or_else
              (as_builtin (lookup k safe_builtins))
              (if member k extra_safe_builtins then as_builtin (real k) else none)))
        × (lookup "__builtins__"
              (make_restricted_globals safe_globals safe_builtins real script_context)
            ≡ some (builtins (script_builtins safe_builtins real)))
  unfolding script_builtins make_restricted_globals
  script_builtins-names k safe_globals safe_builtins script_context real absent =
      let bs = copied safe_builtins in
      (
        ground (
          arith,
          lookup-insert "__import__" k safe_importer
              (drop_names dangerous (add_extra real extra_safe_builtins bs)),
          eq_iff "__import__" k,
          eq_iff k "__import__",
          drop_names-lookup k dangerous (add_extra real extra_safe_builtins bs),
          add_extra-lookup k real extra_safe_builtins bs,
          copied-lookup k safe_builtins,
        ),
        update_all-lookup "__builtins__" script_context _ absent
            ∙ lookup-insert "__builtins__" "__builtins__"
                (builtins (script_builtins safe_builtins real)) _,
      )
