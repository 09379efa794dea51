-- ===== src/Server/Discovery/Seen.antt =====
-- Which engines the table of indi_engine/network/discovery.py has.
use indi_engine.Base.{
  ℕ, String, Bool, not, ◌&&◌, Option, none, some, List, [], ◌∷◌, ◌≡◌, ◌≢◌, refl, ◌∙◌, arith,
  if◌then◌else◌, ◌==◌, eq_iff,
}
use indi_engine.Base.Dict.{Dict, lookup, lookup-insert, lookup-remove}
use indi_engine.Protocol.Runtime.{Runtime}
use indi_engine.Server.Discovery.{
  Service, Change, added, removed, updated, added_id, removed_id, engine_info, or_text,
  on_service_state_change, on_changes,
}
use indi_engine.Server.Engine.{EngineInfo, Reply}
use indi_engine.Server.Hub.{Hub}

-- What a change makes of the entry of an engine
abbrev pub entry_after : String → String → Change → Option EngineInfo → Option EngineInfo
entry_after own id (added name none) old = old
entry_after own id (added name (some s)) old =
    if added_id s == id && not (added_id s == own) then some (engine_info name s) else old
entry_after own id (removed name info) old =
    if removed_id name info == id && not (removed_id name info == own) then none else old
entry_after own id updated old = old

-- A text that is given, or the default
abbrev pub given : String → Option String → String
given default none = default
given default (some text) = text

-- The id that a service which goes stands for
abbrev pub going_id : String → Option Service → String
going_id name none = name
going_id name (some s) = given name (lookup "engine_id" s.properties)

or_text-given : (default : String) (o : Option String) → or_text default o ≡ given default o
or_text-given default none = refl
or_text-given default (some text) = refl

removed_id-going_id :
    (name : String) (info : Option Service) → removed_id name info ≡ going_id name info
unfolding lookup
removed_id-going_id name none = refl
removed_id-going_id name (some s) = or_text-given name (lookup "engine_id" s.properties)

own_absent : (own : String) (c : Change) → entry_after own own c none ≡ none
own_absent own (added name none) = refl
own_absent own (added name (some s)) = ground arith
own_absent own (removed name info) = ground arith
own_absent own updated = refl

module _ {py : Runtime} {Params : Type 0} where
  change-lookup :
      (accepts : ℕ → Bool) (own id : String) (c : Change)
      (state : Dict EngineInfo × Hub (Reply py Params))
      → lookup id (on_service_state_change accepts own c state).0
        ≡ entry_after own id c (lookup id state.0)
  unfolding on_service_state_change
  change-lookup accepts own id (added name none) (known, h) = refl
  change-lookup accepts own id (added name (some s)) (known, h) =
      ground (arith, lookup-insert (added_id s) id (engine_info name s) known)
  change-lookup accepts own id (removed name info) (known, h) =
      ground (arith, lookup-remove (removed_id name info) id known)
  change-lookup accepts own id updated (known, h) = refl

  -- An engine that does not list itself does not come to do so, whatever services come and go.
  pub on_changes-own :
      (accepts : ℕ → Bool) (own : String) (cs : List Change)
      (state : Dict EngineInfo × Hub (Reply py Params))
      → lookup own state.0 ≡ none
      → lookup own (on_changes accepts own cs state).0 ≡ none
  unfolding on_changes
  on_changes-own accepts own [] state absent = absent
  on_changes-own accepts own (c ∷ cs) state absent =
      on_changes-own accepts own cs (on_service_state_change accepts own c state)
        (change-lookup accepts own own c state ∙ rw absent (own_absent own c))

  -- Another engine whose service comes is listed, with the port, the first address, or "" without one, and
  -- the name that the service has. When a service of that name goes, the entry goes exactly if the id of the
  -- going service is the engine's: the one in its info, or the service's name where there is no info or no
  -- id in it. The entries of further engines, whose ids are neither, stay.
  pub on_changes-gone :
      (accepts : ℕ → Bool) (own name id other : String) (s : Service) (info : Option Service)
      (state : Dict EngineInfo × Hub (Reply py Params))
      → lookup "engine_id" s.properties ≡ some id
      → id ≢ own
      → other ≢ id
      → other ≢ going_id name info
      → let come = on_changes accepts own (added name (some s) ∷ []) state in
        let gone = on_changes accepts own (removed name info ∷ []) come in
        ((i : EngineInfo) × (lookup id come.0 ≡ some i)
          × (i.name ≡ given name (lookup "name" s.properties))
          × (i.host ≡ given "" s.address)
          × (i.port ≡ s.port))
        × (lookup id gone.0 ≡ (if going_id name info == id then none else lookup id come.0))
        × (lookup other gone.0 ≡ lookup other state.0)
  unfolding on_changes engine_info
  on_changes-gone accepts own name id other s info state same foreign apart distinct =
      let c₁ = added name (some s) in
      let c₂ = removed name info in
      let come = on_service_state_change accepts own c₁ state in
      let read : added_id s ≡ id = rw same refl in
      let going = removed_id-going_id name info in
      let here : lookup id come.0 ≡ some (engine_info name s) =
        change-lookup accepts own id c₁ state
        ∙ ground (arith, read, foreign, eq_iff (added_id s) id, eq_iff (added_id s) own) in
      let there : lookup other come.0 ≡ lookup other state.0 =
        change-lookup accepts own other c₁ state
        ∙ ground (arith, read, apart, eq_iff (added_id s) other) in
      (
        (
          engine_info name s,
          here,
          or_text-given name (lookup "name" s.properties),
          or_text-given "" s.address,
          refl,
        ),
        change-lookup accepts own id c₂ come
            ∙ ground (
              arith,
              here,
              going,
              foreign,
              eq_iff (removed_id name info) id,
              eq_iff (removed_id name info) own,
            ),
        change-lookup accepts own other c₂ come
            ∙ ground (arith, there, going, distinct, eq_iff (removed_id name info) other),
      )
