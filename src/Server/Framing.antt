-- ===== src/Server/Framing.antt =====
-- The newline-delimited stream of `_handle_client` in indi_engine/server/socket_server.py and of
-- `_connect_and_read` in indi_engine/network/peer.py: `while b"\n" in buf`.
use indi_engine.Base.{
  ℕ, Bool, true, false, List, [], ◌∷◌, ◌++◌, ◌≡◌, refl, sym, if◌then◌else◌, Bool-cases, inl, inr,
}
use indi_engine.Base.Numbers.{◌==◌}
use mathlib.Core.List.{append-nil, append_assoc}
use indi_engine.Transport.Bytes.{Bytes, strip}

-- The complete lines of a buffer, and the bytes behind the last newline.
pub record Lines : Type 0 where
  pub complete : List Bytes
  pub rest : Bytes

-- The lines and the rest with a byte, no newline, in front.
abbrev pub push_onto : ℕ → List Bytes → Bytes → Lines
push_onto b [] r = record { complete = []; rest = b ∷ r }
push_onto b (l ∷ ls) r = record { complete = (b ∷ l) ∷ ls; rest = r }

abbrev pub push_byte : ℕ → Lines → Lines
push_byte b l = push_onto b l.complete l.rest

-- `line, buf = buf.split(b"\n", 1)`, as long as there is a newline
unfoldable pub split_lines : Bytes → Lines
split_lines [] = record { complete = []; rest = [] }
split_lines (b ∷ buf) =
    let after = split_lines buf in
    if b == 10
    then record { complete = [] ∷ after.complete; rest = after.rest }
    else push_byte b after

abbrev pub is_filled : Bytes → Bool
is_filled [] = false
is_filled (b ∷ bs) = true

-- `line = line.strip()`, and `continue` at an empty one
unfoldable pub stripped_lines : List Bytes → List Bytes
stripped_lines [] = []
stripped_lines (l ∷ ls) =
    let line = strip l in
    let rest = stripped_lines ls in if is_filled line then line ∷ rest else rest

-- The lines that the loop passes on for the chunks that `recv` returns, one after the other, and
-- the buffer that it is left with.
unfoldable pub read_chunks : Bytes → List Bytes → Lines
read_chunks buf [] = record { complete = []; rest = buf }
read_chunks buf (chunk ∷ chunks) =
    let now = split_lines (buf ++ chunk) in
    let later = read_chunks now.rest chunks in
    record { complete = stripped_lines now.complete ++ later.complete; rest = later.rest }

abbrev pub concat : List Bytes → Bytes
concat [] = []
concat (chunk ∷ chunks) = chunk ++ concat chunks

abbrev and_then : Lines → Bytes → Lines
and_then before more =
    let after = split_lines (before.rest ++ more) in
    record { complete = before.complete ++ after.complete; rest = after.rest }

push_onto-then :
    (b : ℕ) (complete : List Bytes) (r more : Bytes)
    → (b == 10) ≡ false
    → and_then (push_onto b complete r) more
      ≡ push_byte b (and_then (record { complete = complete; rest = r }) more)
unfolding split_lines
push_onto-then b [] r more plain = rw plain refl
push_onto-then b (l ∷ ls) r more plain = refl

split_lines-append :
    (buf more : Bytes) → split_lines (buf ++ more) ≡ and_then (split_lines buf) more
unfolding split_lines
split_lines-append [] more = refl
split_lines-append (b ∷ buf) more = elim (Bool-cases (b == 10)) [
  | inl newline ↦ rw (newline, split_lines-append buf more) refl
  | inr plain ↦
      rw (plain, split_lines-append buf more)
        (sym (push_onto-then b (split_lines buf).complete (split_lines buf).rest more plain))
]

stripped_lines-append :
    (ls ks : List Bytes) → stripped_lines (ls ++ ks) ≡ stripped_lines ls ++ stripped_lines ks
unfolding stripped_lines
stripped_lines-append [] ks = refl
stripped_lines-append (l ∷ ls) ks = elim (Bool-cases (is_filled (strip l))) [
  | inl filled ↦ rw (filled, stripped_lines-append ls ks) refl
  | inr empty ↦ rw (empty, stripped_lines-append ls ks) refl
]

push_onto-rest :
    (b : ℕ) (complete : List Bytes) (r : Bytes)
    → (b == 10) ≡ false
    → split_lines r ≡ record { complete = []; rest = r }
    → split_lines (push_onto b complete r).rest
      ≡ record { complete = []; rest = (push_onto b complete r).rest }
unfolding split_lines
push_onto-rest b [] r plain h = rw (plain, h) refl
push_onto-rest b (l ∷ ls) r plain h = h

split_lines-rest :
    (buf : Bytes)
    → split_lines (split_lines buf).rest ≡ record { complete = []; rest = (split_lines buf).rest }
unfolding split_lines
split_lines-rest [] = refl
split_lines-rest (b ∷ buf) = elim (Bool-cases (b == 10)) [
  | inl newline ↦ rw newline (split_lines-rest buf)
  | inr plain ↦ rw plain (
      push_onto-rest b (split_lines buf).complete (split_lines buf).rest plain
        (split_lines-rest buf))
]

-- However the stream is cut into chunks, the loop passes on the lines of the whole stream,
-- stripped and without the blank ones, and is left with what stands behind its last newline, if
-- it starts with a buffer that holds no newline.
pub read_chunks-split :
    (buf : Bytes) (chunks : List Bytes)
    → split_lines buf ≡ record { complete = []; rest = buf }
    → read_chunks buf chunks ≡ record {
      complete = stripped_lines (split_lines (buf ++ concat chunks)).complete;
      rest = (split_lines (buf ++ concat chunks)).rest;
    }
unfolding read_chunks stripped_lines
read_chunks-split buf [] whole = rw (append-nil buf, whole) refl
read_chunks-split buf (chunk ∷ chunks) whole =
    let now = split_lines (buf ++ chunk) in
    rw
      (
        sym (append_assoc buf chunk (concat chunks)),
        split_lines-append (buf ++ chunk) (concat chunks),
        read_chunks-split now.rest chunks (split_lines-rest (buf ++ chunk)),
        stripped_lines-append now.complete (split_lines (now.rest ++ concat chunks)).complete,
      )
      refl
