-- ===== src/Transport/Splitter/Stable.antt =====
-- What the splitter has found in a buffer it finds again when more bytes are appended.
use indi_engine.Base.{
  ℕ, zero, suc, ◌+◌, ◌<◌, ◌≤◌, ◌≡◌, refl, sym, ap, ◌∙◌, Option, none, some, [], ◌∷◌, ◌++◌, drop,
  length, ltb, arith, Bool, true, false, ◌&&◌, not, Bool-cases, ◌⊎◌, inl, inr, if◌then◌else◌,
}
use indi_engine.Base.Int.{ℤ}
use indi_engine.Base.Lists.{length-drop, drop-append, length-append}
use indi_engine.Base.Numbers.{◌==◌, lt→ltb, ltb→lt}
use indi_engine.Transport.Bytes.{Bytes, is_prefix, find, find_from}
use indi_engine.Transport.Splitter.{
  Round, go, ends, leave, Outcome, complete, scan, scanned, scan_round, comment_close,
  instruction_close, gt_from, find_gt, tag_gt_from, closes_self, find_tag_gt, after_literal,
  after_close, after_open,
}
use indi_engine.Transport.Splitter.Bounds.{
  is_prefix-length, find_from_bounds, InRange, round-InRange,
}
use indi_engine.Transport.Splitter.Shift.{shift, round-shift}
use native.Mathlib.Nat.{add-zero}

is_prefix-append :
    (lit rest more : Bytes)
    → length lit ≤ length rest
    → is_prefix lit (rest ++ more) ≡ is_prefix lit rest
unfolding is_prefix
is_prefix-append [] rest more h = refl
is_prefix-append (c ∷ lit) [] more h = absurd (omega arith)
is_prefix-append (c ∷ lit) (b ∷ rest) more h = rw (is_prefix-append lit rest more (omega arith))

find_from-append :
    (lit rest more : Bytes) (p e : ℕ)
    → find_from lit rest p ≡ some e
    → find_from lit (rest ++ more) p ≡ some e
unfolding find_from is_prefix
find_from-append [] [] [] p e h = h
find_from-append [] [] (m ∷ more) p e h = ground arith
find_from-append (c ∷ lit) [] more p e h = cc
find_from-append lit (b ∷ rest) more p e h = elim (Bool-cases (is_prefix lit (b ∷ rest))) [
  | inl here ↦
      let same = is_prefix-append lit (b ∷ rest) more (is_prefix-length lit (b ∷ rest) here) in
      ground arith
  | inr later ↦
      let found : find_from lit rest (p + 1) ≡ some e = ground arith in
      let bounds = find_from_bounds lit rest (p + 1) e found in
      let same = is_prefix-append lit (b ∷ rest) more (omega arith) in
      ground (arith, find_from-append lit rest more (p + 1) e found)
]

gt_from-append :
    (quote : Option ℕ) (rest more : Bytes) (p g : ℕ)
    → gt_from quote rest p ≡ some g
    → gt_from quote (rest ++ more) p ≡ some g
unfolding gt_from
gt_from-append quote [] more p g h = cc
gt_from-append (some q) (c ∷ rest) more p g h =
    gt_from-append (if c == q then none else some q) rest more (p + 1) g h
gt_from-append none (c ∷ rest) more p g h = ground (
  arith,
  gt_from-append (some b'"') rest more (p + 1) g,
  gt_from-append (some 39) rest more (p + 1) g,
  gt_from-append none rest more (p + 1) g,
)

tag_gt_from-append :
    (quote : Option ℕ) (rest more : Bytes) (p g : ℕ) (s : Bool)
    → tag_gt_from quote rest p ≡ some (g, s)
    → tag_gt_from quote (rest ++ more) p ≡ some (g, s)
unfolding tag_gt_from closes_self
tag_gt_from-append quote [] more p g s h = cc
tag_gt_from-append (some q) (c ∷ rest) more p g s h =
    tag_gt_from-append (if c == q then none else some q) rest more (p + 1) g s h
tag_gt_from-append none (c ∷ []) [] p g s h = h
tag_gt_from-append none (c ∷ []) (d ∷ more) p g s h = ground arith
tag_gt_from-append none (c ∷ d ∷ rest) more p g s h = ground (
  arith,
  tag_gt_from-append (some b'"') (d ∷ rest) more (p + 1) g s,
  tag_gt_from-append (some 39) (d ∷ rest) more (p + 1) g s,
  tag_gt_from-append none (d ∷ rest) more (p + 1) g s,
)

-- A round that did not leave the loop.
abbrev Persists : Round → Round → Type 0
Persists (leave p) r = Unit
Persists (go p d) r = r ≡ go p d
Persists (ends p) r = r ≡ ends p

Persists-if :
    (b : Bool) (r s r' s' : Round)
    → Persists r r'
    → Persists s s'
    → Persists (if b then r else s) (if b then r' else s')
Persists-if true r s r' s' h k = h
Persists-if false r s r' s' h k = k

Persists-refl : (r : Round) → Persists r r
Persists-refl (go p d) = refl
Persists-refl (ends p) = refl
Persists-refl (leave p) = tt

literal-Persists :
    (o o' : Option ℕ) (k : ℕ) (d : ℤ) (p : ℕ)
    → ((e : ℕ) → o ≡ some e → o' ≡ some e)
    → Persists (after_literal o k d p) (after_literal o' k d p)
literal-Persists none o' k d p h = tt
literal-Persists (some e) o' k d p h = rw (h e refl)

close-Persists :
    (o o' : Option ℕ) (d : ℤ) (p : ℕ)
    → ((e : ℕ) → o ≡ some e → o' ≡ some e)
    → Persists (after_close o d p) (after_close o' d p)
close-Persists none o' d p h = tt
close-Persists (some e) o' d p h = rw (h e refl) (Persists-refl _)

open-Persists :
    (o o' : Option (ℕ × Bool)) (d : ℤ) (p : ℕ)
    → ((e : ℕ) (s : Bool) → o ≡ some (e, s) → o' ≡ some (e, s))
    → Persists (after_open o d p) (after_open o' d p)
open-Persists none o' d p h = tt
open-Persists (some (e, s)) o' d p h = rw (h e s refl) (Persists-refl _)

round_short1 :
    (a : ℕ) (more : Bytes) (d : ℤ)
    → ((scan_round (a ∷ []) 0 d ≡ leave 0) ⊎ (scan_round (a ∷ more) 0 d ≡ scan_round (a ∷ []) 0 d))
unfolding scan_round find find_from find_gt gt_from find_tag_gt tag_gt_from is_prefix closes_self
round_short1 a [] d = inr refl
round_short1 a (m ∷ more) d = ground arith

-- On a buffer too short for a comment mark the round finds at most the `>` of a tag.
round_short2 :
    (a b : ℕ) (more : Bytes) (d : ℤ)
    → ((scan_round (a ∷ b ∷ []) 0 d ≡ leave 0)
        ⊎ (scan_round (a ∷ b ∷ more) 0 d ≡ scan_round (a ∷ b ∷ []) 0 d))
unfolding scan_round find find_from find_gt gt_from find_tag_gt tag_gt_from is_prefix closes_self
round_short2 a b [] d = inr refl
round_short2 a b (m ∷ more) d = ground arith

round_short3 :
    (a b c : ℕ) (more : Bytes) (d : ℤ)
    → ((scan_round (a ∷ b ∷ c ∷ []) 0 d ≡ leave 0)
        ⊎ (scan_round (a ∷ b ∷ c ∷ more) 0 d ≡ scan_round (a ∷ b ∷ c ∷ []) 0 d))
unfolding scan_round find find_from find_gt gt_from find_tag_gt tag_gt_from is_prefix closes_self
round_short3 a b c [] d = inr refl
round_short3 a b c (m ∷ more) d = ground arith

Persists-or : {r r' : Round} {p : ℕ} → (r ≡ leave p) ⊎ (r' ≡ r) → Persists r r'
Persists-or (inl e) = rw e tt
Persists-or {r} (inr e) = rw e (Persists-refl r)

-- A round by its four tests and what it looks for.
abbrev round_of :
    Bool → Bool → Bool → Bool → ℕ → ℤ → Option ℕ → Option ℕ → Option ℕ → Option (ℕ × Bool) → Round
round_of text comment instruction close p d o o₁ o₂ o₃ =
    if text
    then go (p + 1) d
    else if comment
    then after_literal o 3 d p
    else if instruction
    then after_literal o₁ 2 d p
    else if close
    then after_close o₂ d p
    else after_open o₃ d p

abbrev Kept {ℓ} : {A : Type ℓ} → Option A → Option A → Type ℓ
Kept {A} o o' = (a : A) → o ≡ some a → o' ≡ some a

round_of-Persists :
    (text comment instruction close : Bool) (p : ℕ) (d : ℤ) {o o' o₁ o₁' o₂ o₂' : Option ℕ}
    {o₃ o₃' : Option (ℕ × Bool)}
    → Kept o o'
    → Kept o₁ o₁'
    → Kept o₂ o₂'
    → Kept o₃ o₃'
    → Persists
        (round_of text comment instruction close p d o o₁ o₂ o₃)
        (round_of text comment instruction close p d o' o₁' o₂' o₃')
round_of-Persists true _ _ _ p d h h₁ h₂ h₃ = refl
round_of-Persists false true _ _ p d h h₁ h₂ h₃ = literal-Persists _ _ 3 d p h
round_of-Persists false false true _ p d h h₁ h₂ h₃ = literal-Persists _ _ 2 d p h₁
round_of-Persists false false false true p d h h₁ h₂ h₃ = close-Persists _ _ d p h₂
round_of-Persists false false false false p d h h₁ h₂ h₃ = open-Persists _ _ d p (λ e s. h₃ (e, s))

round-Persists_start :
    (rest more : Bytes) (d : ℤ)
    → 0 < length rest
    → Persists (scan_round rest 0 d) (scan_round (rest ++ more) 0 d)
unfolding scan_round find find_gt find_tag_gt is_prefix
round-Persists_start [] more d h = absurd (omega arith)
round-Persists_start (a ∷ []) more d h = Persists-or (round_short1 a more d)
round-Persists_start (a ∷ b ∷ []) more d h = Persists-or (round_short2 a b more d)
round-Persists_start (a ∷ b ∷ c ∷ []) more d h = Persists-or (round_short3 a b c more d)
round-Persists_start (a ∷ b ∷ c ∷ e ∷ rest) more d h =
    round_of-Persists (not (b'<' == a && true))
      (b'<' == a && (b'!' == b && (b'-' == c && (b'-' == e && true))))
      (b'<' == a && (b'?' == b && true)) (b'<' == a && (b'/' == b && true)) 0 d
      (λ q. find_from-append comment_close rest more 4 q)
      (λ q. find_from-append instruction_close (c ∷ e ∷ rest) more 2 q)
      (λ q. gt_from-append none (c ∷ e ∷ rest) more 2 q)
      (λ (q, s). tag_gt_from-append none (b ∷ c ∷ e ∷ rest) more 1 q s)

Persists-shift : (k : ℕ) (r r' : Round) → Persists r r' → Persists (shift k r) (shift k r')
Persists-shift k (go p d) r' h = ap (shift k) h
Persists-shift k (ends p) r' h = ap (shift k) h
Persists-shift k (leave p) r' h = tt

round-Persists :
    (buf more : Bytes) (p : ℕ) (d : ℤ)
    → p < length buf
    → Persists (scan_round buf p d) (scan_round (buf ++ more) p d)
round-Persists buf more p d h =
    let start = round-Persists_start (drop p buf) more d (omega (arith, length-drop p buf)) in
    let at_zero =
      λ (b : Bytes). ap (λ q. scan_round b q d) (sym (add-zero p)) ∙ round-shift b p 0 d in
    rw (at_zero buf, at_zero (buf ++ more), drop-append p buf more (omega arith))
      (Persists-shift p _ _ start)

scanned-complete :
    (r r' : Round) (k k' : ℕ → ℤ → Outcome) (e : ℕ)
    → Persists r r'
    → scanned r k ≡ complete e
    → ((p : ℕ) (d : ℤ) → k p d ≡ complete e → k' p d ≡ complete e)
    → scanned r' k' ≡ complete e
scanned-complete (go p d) r' k k' e h s same = rw h (same p d s)
scanned-complete (ends p) r' k k' e h s same = rw h s
scanned-complete (leave p) r' k k' e h s same = cc

-- An element that is complete in a buffer is complete, with the same end, in every longer one.
pub scan-append :
    (f g : ℕ) (buf more : Bytes) (p : ℕ) (d : ℤ) (e : ℕ)
    → f ≤ g
    → scan f buf p d ≡ complete e
    → scan g (buf ++ more) p d ≡ complete e
unfolding scan
scan-append zero g buf more p d e h s = cc
scan-append (suc f) zero buf more p d e h s = absurd (omega arith)
scan-append (suc f) (suc g) buf more p d e h s = elim (Bool-cases (ltb p (length buf))) [
  | inr out ↦ cc (rw out at s)
  | inl at_byte ↦
      let lt = ltb→lt p (length buf) at_byte in
      let longer : p < length (buf ++ more) = omega (arith, length-append buf more) in
      rw (lt→ltb p (length (buf ++ more)) longer) (
        scanned-complete _ _ _ _ e (round-Persists buf more p d lt) (rw at_byte at s)
          (λ q d'. scan-append f g buf more q d' e (omega arith)))
]

scanned_bounds :
    (r : Round) (k : ℕ → ℤ → Outcome) (p n e : ℕ)
    → InRange p n r
    → scanned r k ≡ complete e
    → ((q : ℕ) (d : ℤ) → k q d ≡ complete e → (q < e) × (e ≤ n))
    → (p < e) × (e ≤ n)
scanned_bounds (go q d) k p n e b s later = let l = later q d s in omega arith
scanned_bounds (ends q) k p n e b s later = let same : q ≡ e = cc in omega arith
scanned_bounds (leave q) k p n e b s later = cc

-- A complete element is not empty and ends in the buffer.
pub scan_bounds :
    (f : ℕ) (buf : Bytes) (p : ℕ) (d : ℤ) (e : ℕ)
    → scan f buf p d ≡ complete e
    → (p < e) × (e ≤ length buf)
unfolding scan
scan_bounds zero buf p d e s = cc
scan_bounds (suc f) buf p d e s = elim (Bool-cases (ltb p (length buf))) [
  | inr out ↦ cc (rw out at s)
  | inl at_byte ↦
      scanned_bounds _ _ p (length buf) e (round-InRange buf p d (ltb→lt p (length buf) at_byte))
        (rw at_byte at s) (λ q d'. scan_bounds f buf q d' e)
]
