-- ===== src/Transport/Bytes.antt =====
-- The operations on `bytes` that the XML stream splitter uses. A byte is its number; a position
-- that Python writes as -1 is `none`.
use indi_engine.Base.{
  ℕ, zero, suc, ◌+◌, Bool, true, false, ◌&&◌, ◌||◌, List, [], ◌∷◌, Option, none, some, drop,
  if◌then◌else◌,
}
use indi_engine.Base.Numbers.{◌==◌}

abbrev pub Bytes : Type 0
Bytes = List ℕ

-- `buf[p:p + len(lit)] == lit`, for `rest = buf[p:]`
unfoldable pub is_prefix : Bytes → Bytes → Bool
is_prefix [] rest = true
is_prefix (c ∷ lit) [] = false
is_prefix (c ∷ lit) (b ∷ rest) = c == b && is_prefix lit rest

unfoldable pub find_from : Bytes → Bytes → ℕ → Option ℕ
find_from lit [] p = if is_prefix lit [] then some p else none
find_from lit (b ∷ rest) p =
    let later = find_from lit rest (p + 1) in if is_prefix lit (b ∷ rest) then some p else later

-- buf.find(lit, p)
unfoldable pub find : Bytes → Bytes → ℕ → Option ℕ
unfolding find_from
find lit buf p = find_from lit (drop p buf) p

-- buf[p:q]
unfoldable pub slice : ℕ → ℕ → Bytes → Bytes
slice p q [] = []
slice zero zero (b ∷ buf) = []
slice zero (suc q) (b ∷ buf) = b ∷ slice zero q buf
slice (suc p) zero (b ∷ buf) = []
slice (suc p) (suc q) (b ∷ buf) = slice p q buf

-- the ASCII whitespace of `bytes.strip`
unfoldable pub is_space : ℕ → Bool
is_space c = c == b' ' || c == 9 || c == 10 || c == 11 || c == 12 || c == 13

unfoldable pub strip_left : Bytes → Bytes
unfolding is_space
strip_left [] = []
strip_left (b ∷ buf) = let rest = strip_left buf in if is_space b then rest else b ∷ buf

unfoldable pub strip_right : Bytes → Bytes
unfolding is_space
strip_right [] = []
strip_right (b ∷ buf) = drop_last b (strip_right buf)
  where
    drop_last : ℕ → Bytes → Bytes
    drop_last b [] = if is_space b then [] else b ∷ []
    drop_last b (c ∷ rest) = b ∷ c ∷ rest

-- buf.strip()
unfoldable pub strip : Bytes → Bytes
unfolding strip_left strip_right
strip buf = strip_right (strip_left buf)
