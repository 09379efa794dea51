-- ===== src/Transport/Splitter/Loop.antt =====
-- The loop of `_split_xml_messages`, with its positions, against the description of the stream.
use native.Mathlib.Nat.{add-zero}
use mathlib.Core.List.{append-nil, append_assoc}
use indi_engine.Base.{
  ℕ, zero, suc, ◌+◌, ◌-◌, ◌<◌, ◌≤◌, ◌≡◌, ◌≢◌, refl, sym, ap, ◌∙◌, Option, none, some, List, [], ◌∷◌,
  ◌++◌, drop, take, length, max, leb, arith, false, ◌||◌, Bool-cases, inl, inr,
}
use indi_engine.Base.Int.{pos}
use indi_engine.Base.Lists.{length-drop, drop-drop}
use indi_engine.Base.Numbers.{◌==◌}
use indi_engine.Transport.Bytes.{Bytes, is_prefix, slice, strip}
use indi_engine.Transport.Splitter.{
  Outcome, complete, incomplete, scan, find_element_end, Split, skip_space, append_message,
  split_element, split_from, split_xml_messages,
}
use indi_engine.Transport.Splitter.Resume.{element_end, find_element_end-scan_from, scan_fuel}
use indi_engine.Transport.Splitter.Shift.{moved, scan-drop}
use indi_engine.Transport.Splitter.Stream.{
  Splits, ended, dropped, partial, message, StartsTag, element, element_bounds, cons_message,
}

element_end-find :
    (buf : Bytes) (p scan_from : ℕ)
    → element_end (find_element_end buf p scan_from) ≡ moved p (element (drop p buf))
unfolding element
element_end-find buf p scan_from =
    find_element_end-scan_from buf p scan_from
    ∙ ap (λ q. element_end (scan (length buf + 1) buf q (pos 0))) (sym (add-zero p))
    ∙ scan-drop (length buf + 1) buf p 0 (pos 0)
    ∙ ap (λ o. moved p (element_end o))
        (scan_fuel (length buf + 1) (length (drop p buf) + 1) (drop p buf) 0 (pos 0)
          (omega (arith, length-drop p buf)) (omega arith))

take-nil : (n : ℕ) → take {A = ℕ} n [] ≡ []
take-nil zero = refl
take-nil (suc n) = refl

slice-take : (p q : ℕ) (buf : Bytes) → p ≤ q → slice p q buf ≡ take (q - p) (drop p buf)
unfolding slice
slice-take zero q [] h = sym (take-nil (q - 0))
slice-take (suc p) q [] h = sym (take-nil (q - suc p))
slice-take zero zero (b ∷ buf) h = refl
slice-take zero (suc q) (b ∷ buf) h =
    let same : suc q - zero ≡ suc q = omega arith in
    rw same (ap (◌∷◌ b) (slice-take zero q buf (omega arith) ∙ ap (λ k. take k buf) (omega arith)))
slice-take (suc p) zero (b ∷ buf) h = absurd (omega arith)
slice-take (suc p) (suc q) (b ∷ buf) h =
    let same : suc q - suc p ≡ q - p = omega arith in rw same (slice-take p q buf (omega arith))

drop-cons :
    {A : Type 0} (p : ℕ) (xs : List A) → p < length xs → (x : A) × (drop p xs ≡ x ∷ drop (p + 1) xs)
drop-cons zero [] h = absurd (omega arith)
drop-cons zero (x ∷ xs) h = (x, refl)
drop-cons (suc p) [] h = absurd (omega arith)
drop-cons (suc p) (x ∷ xs) h =
    let next : suc p + 1 ≡ suc (p + 1) = omega arith in rw next (drop-cons p xs (omega arith))

drop-nil : {A : Type 0} (p : ℕ) (xs : List A) → length xs ≤ p → drop p xs ≡ []
drop-nil zero [] h = refl
drop-nil zero (x ∷ xs) h = absurd (omega arith)
drop-nil (suc p) [] h = refl
drop-nil (suc p) (x ∷ xs) h = drop-nil p xs (omega arith)

skip_space-le : (b : Bytes) (p : ℕ) → p ≤ skip_space b p
unfolding skip_space
skip_space-le [] p = omega arith
skip_space-le (c ∷ rest) p = ground (arith, skip_space-le rest (p + 1))

-- The loop over whitespace drops bytes between elements.
skip_space-Splits :
    (b : Bytes) (p : ℕ) {ms : List Bytes} {r : Bytes}
    → Splits (drop (skip_space b p - p) b) ms r
    → Splits b ms r
unfolding skip_space
skip_space-Splits [] p {ms} {r} h = rw (drop-nil {A = ℕ} (p - p) [] (omega arith)) at h
skip_space-Splits (c ∷ rest) p {ms} {r} h =
    elim (Bool-cases (c == b' ' || c == 9 || c == 10 || c == 13)) [
      | inl blank ↦
          let forward = skip_space-le rest (p + 1) in
          let further : skip_space rest (p + 1) - p ≡ suc (skip_space rest (p + 1) - (p + 1)) =
            omega arith in
          dropped (ground arith) (skip_space-Splits rest (p + 1) (rw (blank, further) at h))
      | inr text ↦ let here : p - p ≡ 0 = omega arith in rw (text, here) at h
    ]

-- What the loop adds to the messages that it has.
record Continues (messages : List Bytes) (b : Bytes) (s : Split) : Type 0 where
  added : List Bytes
  appended : s.messages ≡ messages ++ added
  splits : Splits b added s.rest

Continues-message :
    (msg : Bytes) (messages : List Bytes) (b : Bytes) (s : Split)
    → Continues (append_message msg messages) b s
    → (added : List Bytes) × (s.messages ≡ messages ++ cons_message msg added)
      × Splits b added s.rest
Continues-message [] messages b s c = (c.added, c.appended, c.splits)
Continues-message (x ∷ msg) messages b s c =
    (c.added, c.appended ∙ append_assoc messages ((x ∷ msg) ∷ []) c.added, c.splits)

moved-some : (q p : ℕ) (o : Option ℕ) → some p ≡ moved q o → (k : ℕ) × (o ≡ some k) × (p ≡ q + k)
moved-some q p none h = cc
moved-some q p (some k) h = (k, refl, cc)

moved-none : (q : ℕ) (o : Option ℕ) → none ≡ moved q o → o ≡ none
moved-none q none h = refl
moved-none q (some k) h = cc

Splits-message :
    (buf : Bytes) (q k e : ℕ) {ms : List Bytes} {r : Bytes}
    → StartsTag (drop q buf)
    → element (drop q buf) ≡ some k
    → e ≡ q + k
    → Splits (drop e buf) ms r
    → Splits (drop q buf) (cons_message (strip (slice q e buf)) ms) r
Splits-message buf q k e {ms} {r} tag found at h =
    let piece : slice q e buf ≡ take k (drop q buf) =
      slice-take q e buf (omega arith) ∙ ap (λ n. take n (drop q buf)) (omega arith) in
    let behind : drop e buf ≡ drop k (drop q buf) =
      ap (λ n. drop n buf) at ∙ sym (drop-drop q k buf) in
    rw piece (message k tag found (rw behind at h))

split_element-Continues :
    (buf : Bytes) (q : ℕ) (messages : List Bytes) (next : ℕ → List Bytes → Split) (o : Outcome)
    → StartsTag (drop q buf)
    → q < length buf
    → element_end o ≡ moved q (element (drop q buf))
    → ((e : ℕ) (ms : List Bytes) → q < e → e ≤ length buf → Continues ms (drop e buf) (next e ms))
    → Continues messages (drop q buf) (split_element buf q messages o next)
split_element-Continues buf q messages next (incomplete p) tag lt same later = record {
  added = [];
  appended = sym (append-nil messages);
  splits = partial tag (moved-none q _ same);
}
split_element-Continues buf q messages next (complete e) tag lt same later =
    let (k, found, at) = moved-some q e (element (drop q buf)) same in
    let within = element_bounds (drop q buf) k found in
    let room : e ≤ length buf = omega (arith, length-drop q buf) in
    let msg = strip (slice q e buf) in
    let c = later e (append_message msg messages) (omega arith) room in
    let (added, appended, splits) = Continues-message msg messages (drop e buf) _ c in
    record {
      added = cons_message msg added;
      appended = appended;
      splits = Splits-message buf q k e tag found at splits;
    }

StartsTag-not : (c : ℕ) (b : Bytes) → is_prefix (b'<' ∷ []) (c ∷ b) ≡ false → c ≢ b'<'
unfolding is_prefix
StartsTag-not c b h = ground arith

Continues-skip :
    (buf : Bytes) (p : ℕ) (messages : List Bytes) (s : Split)
    → Continues messages (drop (skip_space (drop p buf) p) buf) s
    → Continues messages (drop p buf) s
Continues-skip buf p messages s c =
    let forward = skip_space-le (drop p buf) p in
    let same : drop (skip_space (drop p buf) p) buf
        ≡ drop (skip_space (drop p buf) p - p) (drop p buf) =
      ap (λ n. drop n buf) (omega arith) ∙ sym (drop-drop p (skip_space (drop p buf) p - p) buf) in
    record {
      added = c.added;
      appended = c.appended;
      splits = skip_space-Splits (drop p buf) p (rw same at c.splits);
    }

Continues-end :
    (buf : Bytes) (q : ℕ) (messages : List Bytes)
    → length buf ≤ q
    → Continues messages
        (drop q buf)
        (record { messages = messages; rest = drop q buf; scan_pos = 0 })
Continues-end buf q messages h = record {
  added = [];
  appended = sym (append-nil messages);
  splits = rw (drop-nil q buf h) ended;
}

Continues-dropped :
    (buf : Bytes) (q : ℕ) (messages : List Bytes) (s : Split)
    → q < length buf
    → is_prefix (b'<' ∷ []) (drop q buf) ≡ false
    → Continues messages (drop (q + 1) buf) s
    → Continues messages (drop q buf) s
Continues-dropped buf q messages s lt text c =
    let (x, split) = drop-cons q buf lt in
    record {
      added = c.added;
      appended = c.appended;
      splits = rw split (dropped (StartsTag-not x (drop (q + 1) buf) (rw split at text)) c.splits);
    }

split_from-Continues :
    (f : ℕ) (buf : Bytes) (p scan_pos : ℕ) (messages : List Bytes)
    → length buf - p < f
    → Continues messages (drop p buf) (split_from f buf p scan_pos messages)
unfolding split_from
split_from-Continues zero buf p scan_pos messages h = absurd (omega arith)
split_from-Continues (suc f) buf p scan_pos messages h =
    let q = skip_space (drop p buf) p in
    let forward : p ≤ q = skip_space-le (drop p buf) p in
    Continues-skip buf p messages _ (elim (Bool-cases (leb (length buf) q)) [
      | inl over ↦ rw over (Continues-end buf q messages (ground arith))
      | inr more ↦
          let lt : q < length buf = ground arith in
          rw more (elim (Bool-cases (is_prefix (b'<' ∷ []) (drop q buf))) [
            | inr text ↦ rw text (
                Continues-dropped buf q messages _ lt text
                  (split_from-Continues f buf (q + 1) scan_pos messages (omega arith)))
            | inl tag ↦ rw tag (
                split_element-Continues buf q messages _ _ tag lt
                  (element_end-find buf q (max (q + 1) scan_pos))
                  (λ e ms qe en. split_from-Continues f buf e 0 ms (omega arith)))
          ])
    ])

-- Whatever position the scan resumes from, the messages and the rest are those of the stream.
pub split_xml_messages-Splits :
    (buf : Bytes) (scan_pos : ℕ)
    → Splits buf (split_xml_messages buf scan_pos).messages (split_xml_messages buf scan_pos).rest
unfolding split_xml_messages
split_xml_messages-Splits buf scan_pos =
    let c = split_from-Continues (length buf + 1) buf 0 scan_pos [] (omega arith) in
    rw c.appended c.splits
