-- ===== src/Base/Names.antt =====
-- Python's `set` of texts, as a list without an order that matters: tests, `add` and `discard`.
use mathlib.Core.Path.{◌≡◌}
use mathlib.Core.Bool.{Bool, true, false, ◌||◌, ◌&&◌, not}
use mathlib.Core.List.{List, [], ◌∷◌}
use Prim.Native.String.{String}
use native.Mathlib.Omega.{arith}
use text.Mathlib.Text.{◌==◌}
use text.Mathlib.TextEquality.{eq_iff}
use indi_engine.Base.Numbers.{if◌then◌else◌}

-- k in s
unfoldable pub member : String → List String → Bool
member k [] = false
member k (x ∷ s) = x == k || member k s

-- s.add(k)
unfoldable pub add : String → List String → List String
add k s = if member k s then s else k ∷ s

-- s.discard(k)
unfoldable pub discard : String → List String → List String
discard k [] = []
discard k (x ∷ s) = let rest = discard k s in if x == k then rest else x ∷ rest

-- a.issubset(b)
unfoldable pub is_subset : List String → List String → Bool
is_subset [] s = true
is_subset (x ∷ xs) s = member x s && is_subset xs s

pub member-add : (k j : String) (s : List String) → member j (add k s) ≡ (k == j || member j s)
unfolding member add
member-add k j s = ground (arith, eq_iff k j)

pub member-discard :
    (k j : String) (s : List String) → member j (discard k s) ≡ (not (k == j) && member j s)
unfolding member discard
member-discard k j [] = ground arith
member-discard k j (x ∷ s) =
    ground (arith, eq_iff k j, eq_iff x k, eq_iff x j, member-discard k j s)

pub ruleset name_laws = (member-add, member-discard)
