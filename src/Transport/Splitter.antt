-- ===== src/Transport/Splitter.antt =====
-- The XML stream splitter of indi_engine/indi/protocol/transport.py: `_find_gt`, `_find_tag_gt`,
-- `_find_element_end` and `_split_xml_messages`, on positions in one buffer. The loops over tags
-- and messages take fuel, one round for each byte left and one more to see the end.
pub mod Resume
pub mod Shift
pub mod Bounds
pub mod Stable
pub mod Stream
pub mod Loop
use indi_engine.Base.{
  ℕ, zero, suc, ◌+◌, ◌-◌, max, Bool, true, false, not, ◌&&◌, ◌||◌, List, [], ◌∷◌, ◌++◌, Option,
  none, some, drop, length, ltb, leb, if◌then◌else◌,
}
use indi_engine.Base.Int.{ℤ, pos, incr, decr, is_zero}
use indi_engine.Base.Numbers.{◌==◌}
use indi_engine.Transport.Bytes.{Bytes, is_prefix, find, slice, strip}

-- The `while` loop of `_find_gt` on `buf[p:]`. With `some q` it is in the inner loop that looks
-- for the closing quote `q`.
unfoldable pub gt_from : Option ℕ → Bytes → ℕ → Option ℕ
gt_from quote [] p = none
gt_from (some q) (c ∷ rest) p = gt_from (if c == q then none else some q) rest (p + 1)
gt_from none (c ∷ rest) p =
    let in_double = gt_from (some b'"') rest (p + 1) in
    let in_single = gt_from (some 39) rest (p + 1) in
    let next = gt_from none rest (p + 1) in
    if c == b'"'
    then in_double
    else if c == 39
    then in_single
    else if c == b'>'
    then some p
    else next

unfoldable pub find_gt : Bytes → ℕ → Option ℕ
unfolding gt_from
find_gt buf p = gt_from none (drop p buf) p

-- `c == '/' and pos + 1 < n and buf[pos + 1] == '>'`, on what follows `c`
unfoldable pub closes_self : ℕ → Bytes → Bool
closes_self c [] = false
closes_self c (d ∷ rest) = c == b'/' && d == b'>'

-- The same for `_find_tag_gt`: the position of `>`, and whether the tag is self-closing.
unfoldable pub tag_gt_from : Option ℕ → Bytes → ℕ → Option (ℕ × Bool)
unfolding closes_self
tag_gt_from quote [] p = none
tag_gt_from (some q) (c ∷ rest) p = tag_gt_from (if c == q then none else some q) rest (p + 1)
tag_gt_from none (c ∷ rest) p =
    let in_double = tag_gt_from (some b'"') rest (p + 1) in
    let in_single = tag_gt_from (some 39) rest (p + 1) in
    let next = tag_gt_from none rest (p + 1) in
    if c == b'"'
    then in_double
    else if c == 39
    then in_single
    else if closes_self c rest
    then some (p + 1, true)
    else if c == b'>'
    then some (p, false)
    else next

unfoldable pub find_tag_gt : Bytes → ℕ → Option (ℕ × Bool)
unfolding tag_gt_from
find_tag_gt buf p = tag_gt_from none (drop p buf) p

abbrev pub comment_open : Bytes
comment_open = b'<' ∷ b'!' ∷ b'-' ∷ b'-' ∷ []

abbrev pub comment_close : Bytes
comment_close = b'-' ∷ b'-' ∷ b'>' ∷ []

abbrev pub instruction_open : Bytes
instruction_open = b'<' ∷ b'?' ∷ []

abbrev pub instruction_close : Bytes
instruction_close = b'?' ∷ b'>' ∷ []

abbrev pub tag_close : Bytes
tag_close = b'<' ∷ b'/' ∷ []

-- What one round of a tag loop decides: go on from a position at a depth, the element ends
-- here, or leave the loop at this position with the depth unchanged.
pub data Round : Type 0 where
  go : ℕ → ℤ → Round
  ends : ℕ → Round
  leave : ℕ → Round

-- `end + k`, or the loop is left at `stop`
abbrev pub after_literal : Option ℕ → ℕ → ℤ → ℕ → Round
after_literal none k depth stop = leave stop
after_literal (some e) k depth stop = go (e + k) depth

abbrev pub after_close : Option ℕ → ℤ → ℕ → Round
after_close none depth stop = leave stop
after_close (some gt) depth stop =
    if is_zero (decr depth) then ends (gt + 1) else go (gt + 1) (decr depth)

abbrev pub after_open : Option (ℕ × Bool) → ℤ → ℕ → Round
after_open none depth stop = leave stop
after_open (some (gt, true)) depth stop = if is_zero depth then ends (gt + 1) else go (gt + 1) depth
after_open (some (gt, false)) depth stop = go (gt + 1) (incr depth)

-- One round of the main loop, at `p < n`.
unfoldable pub scan_round : Bytes → ℕ → ℤ → Round
scan_round buf p depth =
    if not (is_prefix (b'<' ∷ []) (drop p buf))
    then go (p + 1) depth
    else if is_prefix comment_open (drop p buf)
    then after_literal (find comment_close buf (p + 4)) 3 depth p
    else if is_prefix instruction_open (drop p buf)
    then after_literal (find instruction_close buf (p + 2)) 2 depth p
    else if is_prefix tag_close (drop p buf)
    then after_close (find_gt buf (p + 2)) depth p
    else after_open (find_tag_gt buf (p + 1)) depth p

-- One round of the loop that finds the depth again up to `scan_from`. A comment or instruction
-- with no end takes it to the end of the buffer.
unfoldable pub resume_round : Bytes → ℕ → ℤ → Round
resume_round buf p depth =
    if not (is_prefix (b'<' ∷ []) (drop p buf))
    then go (p + 1) depth
    else if is_prefix comment_open (drop p buf)
    then after_literal (find comment_close buf (p + 4)) 3 depth (length buf)
    else if is_prefix instruction_open (drop p buf)
    then after_literal (find instruction_close buf (p + 2)) 2 depth (length buf)
    else if is_prefix tag_close (drop p buf)
    then after_close (find_gt buf (p + 2)) depth p
    else after_open (find_tag_gt buf (p + 1)) depth p

-- `(end_pos, True)` and `(end_pos, False)`
pub data Outcome : Type 0 where
  complete : ℕ → Outcome
  incomplete : ℕ → Outcome

abbrev pub scanned : Round → (ℕ → ℤ → Outcome) → Outcome
scanned (go p depth) rest = rest p depth
scanned (ends e) rest = complete e
scanned (leave p) rest = incomplete p

-- The main loop: `while pos < n`.
unfoldable pub scan : ℕ → Bytes → ℕ → ℤ → Outcome
scan zero buf p depth = incomplete p
scan (suc fuel) buf p depth =
    if ltb p (length buf) then scanned (scan_round buf p depth) (scan fuel buf) else incomplete p

-- Where the first loop returns, or the position and depth at which the main loop begins.
pub data Resumed : Type 0 where
  found : ℕ → Resumed
  from : ℕ → ℤ → Resumed

abbrev pub resumed : Round → ℤ → (ℕ → ℤ → Resumed) → Resumed
resumed (go p depth') depth rest = rest p depth'
resumed (ends e) depth rest = found e
resumed (leave p) depth rest = from p depth

-- The first loop: `while p < scan_from and p < n`.
unfoldable pub resume : ℕ → Bytes → ℕ → ℕ → ℤ → Resumed
resume zero buf scan_from p depth = from p depth
resume (suc fuel) buf scan_from p depth =
    if ltb p scan_from && ltb p (length buf)
    then resumed (resume_round buf p depth) depth (resume fuel buf scan_from)
    else from p depth

abbrev pub then_scan : Bytes → Resumed → Outcome
then_scan buf (found e) = complete e
then_scan buf (from p depth) = scan (length buf + 1) buf p depth

unfoldable pub find_element_end : Bytes → ℕ → ℕ → Outcome
find_element_end buf start scan_from =
    if ltb (start + 1) scan_from
    then then_scan buf (resume (length buf + 1) buf scan_from start (pos 0))
    else scan (length buf + 1) buf start (pos 0)

-- The result of `_split_xml_messages`.
pub record Split : Type 0 where
  pub messages : List Bytes
  pub rest : Bytes
  pub scan_pos : ℕ

-- The inner loop over whitespace, on `buf[p:]`: the position of the first other byte.
unfoldable pub skip_space : Bytes → ℕ → ℕ
skip_space [] p = p
skip_space (c ∷ rest) p =
    let next = skip_space rest (p + 1) in
    if c == b' ' || c == 9 || c == 10 || c == 13 then next else p

-- `if msg: messages.append(msg)`
abbrev pub append_message : Bytes → List Bytes → List Bytes
append_message [] messages = messages
append_message (c ∷ msg) messages = messages ++ (c ∷ msg) ∷ []

-- The branches after `_find_element_end` at `p`.
abbrev pub split_element : Bytes → ℕ → List Bytes → Outcome → (ℕ → List Bytes → Split) → Split
split_element buf p messages (incomplete q) next = record {
  messages = messages;
  rest = drop p buf;
  scan_pos = q - p;
}
split_element buf p messages (complete e) next =
    next e (append_message (strip (slice p e buf)) messages)

-- The outer loop: `while pos < n`.
unfoldable pub split_from : ℕ → Bytes → ℕ → ℕ → List Bytes → Split
split_from zero buf p scan_pos messages = record {
  messages = messages;
  rest = drop p buf;
  scan_pos = 0;
}
split_from (suc fuel) buf p scan_pos messages =
    let q = skip_space (drop p buf) p in
    let skip_byte = split_from fuel buf (q + 1) scan_pos messages in
    if leb (length buf) q
    then record { messages = messages; rest = drop q buf; scan_pos = 0 }
    else if not (is_prefix (b'<' ∷ []) (drop q buf))
    then skip_byte
    else split_element buf q messages (find_element_end buf q (max (q + 1) scan_pos))
        (λ e ms. split_from fuel buf e 0 ms)

unfoldable pub split_xml_messages : Bytes → ℕ → Split
split_xml_messages buf scan_pos = split_from (length buf + 1) buf 0 scan_pos []
