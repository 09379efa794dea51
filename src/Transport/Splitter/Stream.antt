-- ===== src/Transport/Splitter/Stream.antt =====
-- An INDI stream described without positions: the messages that it holds and the rest.
use indi_engine.Base.{
  ℕ, ◌+◌, ◌<◌, ◌≤◌, ◌≡◌, ◌≢◌, refl, sym, ap, ◌∙◌, Option, none, some, List, [], ◌∷◌, ◌++◌, drop,
  take, length, arith, true,
}
use indi_engine.Base.Int.{pos}
use indi_engine.Base.Lists.{drop-append, take-append, length-append}
use indi_engine.Transport.Bytes.{Bytes, is_prefix, strip}
use indi_engine.Transport.Splitter.{Outcome, complete, incomplete, scan}
use indi_engine.Transport.Splitter.Resume.{element_end}
use indi_engine.Transport.Splitter.Stable.{scan-append, scan_bounds}

-- The length of the element that starts a buffer, if it is complete.
unfoldable pub element : Bytes → Option ℕ
element b = element_end (scan (length b + 1) b 0 (pos 0))

abbrev pub cons_message : Bytes → List Bytes → List Bytes
cons_message [] messages = messages
cons_message (c ∷ msg) messages = (c ∷ msg) ∷ messages

abbrev pub StartsTag : Bytes → Type 0
StartsTag b = is_prefix (b'<' ∷ []) b ≡ true

-- A stream holds these messages in order and then this rest: bytes between elements are dropped,
-- and the rest is empty or starts an element that is not complete.
pub data Splits : Bytes → List Bytes → Bytes → Type 0 where
  ended : Splits [] [] []
  dropped : {c : ℕ} {b r : Bytes} {ms : List Bytes} → c ≢ b'<' → Splits b ms r → Splits (c ∷ b) ms r
  partial : {b : Bytes} → StartsTag b → element b ≡ none → Splits b [] b
  message :
      {b r : Bytes} {ms : List Bytes} (e : ℕ)
      → StartsTag b
      → element b ≡ some e
      → Splits (drop e b) ms r
      → Splits b (cons_message (strip (take e b)) ms) r

element_end-some : (o : Outcome) (e : ℕ) → element_end o ≡ some e → o ≡ complete e
element_end-some (complete e') e h = cc
element_end-some (incomplete p) e h = cc

pub element_bounds : (b : Bytes) (k : ℕ) → element b ≡ some k → (0 < k) × (k ≤ length b)
unfolding element
element_bounds b k h =
    scan_bounds (length b + 1) b 0 (pos 0) k
      (element_end-some (scan (length b + 1) b 0 (pos 0)) k h)

element-append : (b more : Bytes) (k : ℕ) → element b ≡ some k → element (b ++ more) ≡ some k
unfolding element
element-append b more k h = ap element_end (
    scan-append (length b + 1) (length (b ++ more) + 1) b more 0 (pos 0) k
      (omega (arith, length-append b more))
      (element_end-some (scan (length b + 1) b 0 (pos 0)) k h))

StartsTag-append : (b more : Bytes) → StartsTag b → StartsTag (b ++ more)
unfolding is_prefix
StartsTag-append [] more h = cc
StartsTag-append (c ∷ b) more h = h

not-StartsTag : (c : ℕ) (b : Bytes) → c ≢ b'<' → StartsTag (c ∷ b) → ⊥
unfolding is_prefix
not-StartsTag c b ne tag = ground arith

not-StartsTag_nil : ¬ StartsTag []
unfolding is_prefix
not-StartsTag_nil tag = cc

cons_message-append :
    (msg : Bytes) (ms ms' : List Bytes) → cons_message msg ms ++ ms' ≡ cons_message msg (ms ++ ms')
cons_message-append [] ms ms' = refl
cons_message-append (c ∷ msg) ms ms' = refl

-- More bytes at the end of a stream add messages behind those that it holds.
pub Splits-append :
    {b r r' : Bytes} {ms ms' : List Bytes} (more : Bytes)
    → Splits b ms r
    → Splits (r ++ more) ms' r'
    → Splits (b ++ more) (ms ++ ms') r'
Splits-append more ended h = h
Splits-append more (dropped ne s) h = dropped ne (Splits-append more s h)
Splits-append more (partial tag none_yet) h = h
Splits-append {ms' = ms'} more (message {b} {r} {ms} e tag found s) h =
    let within = element_bounds b e found in
    let behind = drop-append e b more within.1 in
    let piece = take-append e b more within.1 in
    let later = rw (← behind) at (Splits-append more s h) in
    rw (cons_message-append (strip (take e b)) ms ms', ← piece)
      (message e (StartsTag-append b more tag) (element-append b more e found) later)

Splits-partial :
    {b r : Bytes} {ms : List Bytes}
    → StartsTag b
    → element b ≡ none
    → Splits b ms r
    → (ms ≡ []) × (r ≡ b)
Splits-partial tag found ended = (refl, refl)
Splits-partial tag found (dropped {c} {b} ne s) = absurd (not-StartsTag c b ne tag)
Splits-partial tag found (partial tag' found') = (refl, refl)
Splits-partial tag found (message e tag' found' s) =
    let clash : none ≡ some e = sym found ∙ found' in absurd (cc clash)

Splits-message :
    {b r : Bytes} {ms : List Bytes} (e : ℕ)
    → StartsTag b
    → element b ≡ some e
    → Splits b ms r
    → (rest : List Bytes) × (ms ≡ cons_message (strip (take e b)) rest) × Splits (drop e b) rest r
Splits-message e tag found ended = absurd (not-StartsTag_nil tag)
Splits-message e tag found (dropped {c} {b} ne s) = absurd (not-StartsTag c b ne tag)
Splits-message e tag found (partial tag' found') =
    let clash : none ≡ some e = sym found' ∙ found in absurd (cc clash)
Splits-message e tag found (message {b} {r} {ms} e' tag' found' s) =
    let joined : some e' ≡ some e = sym found' ∙ found in
    let same : e' ≡ e = cc in (ms, rw same, rw same at s)

-- A stream splits in one way.
pub Splits-unique :
    {b r r' : Bytes} {ms ms' : List Bytes} → Splits b ms r → Splits b ms' r' → (ms ≡ ms') × (r ≡ r')
Splits-unique ended ended = (refl, refl)
Splits-unique ended (partial tag found) = (refl, refl)
Splits-unique ended (message e tag found s) = absurd (not-StartsTag_nil tag)
Splits-unique (dropped ne s) (dropped ne' s') = Splits-unique s s'
Splits-unique (dropped {c} {b} ne s) (partial tag found) = absurd (not-StartsTag c b ne tag)
Splits-unique (dropped {c} {b} ne s) (message e tag found s') = absurd (not-StartsTag c b ne tag)
Splits-unique (partial tag found) s' =
    let (no_messages, whole) = Splits-partial tag found s' in (sym no_messages, sym whole)
Splits-unique (message {b} e tag found s) s' =
    let (rest, held, later) = Splits-message e tag found s' in
    let (same, same') = Splits-unique s later in
    (ap (cons_message (strip (take e b))) same ∙ sym held, same')
