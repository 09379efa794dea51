-- ===== src/Transport/Splitter/Resume.antt =====
-- `_find_element_end` with a `scan_from` against the plain scan from the start of the element.
use indi_engine.Base.{
  ℕ, zero, suc, ◌+◌, ◌-◌, ◌<◌, ◌≤◌, ◌≡◌, refl, ◌∙◌, Option, none, some, drop, length, ltb, arith,
  Bool, true, false, ◌&&◌, not, Bool-cases, inl, inr, if◌then◌else◌, [], ◌∷◌,
}
use indi_engine.Base.Int.{ℤ, pos, decr, is_zero}
use indi_engine.Transport.Bytes.{Bytes, is_prefix}
use indi_engine.Base.Numbers.{ltb→lt, lt→ltb, ltb-false}
use indi_engine.Transport.Splitter.Bounds.{InRange, round-InRange}
use indi_engine.Transport.Splitter.{
  Round, go, ends, leave, Outcome, complete, incomplete, scan, scanned, scan_round, resume_round,
  Resumed, resume, resumed, then_scan, find_element_end, comment_open, instruction_open, tag_close,
  after_literal, after_close, after_open,
}

-- The end of a complete element.
abbrev pub element_end : Outcome → Option ℕ
element_end (complete e) = some e
element_end (incomplete p) = none

scanned-ap :
    (r : Round) (k k' : ℕ → ℤ → Outcome) (p n : ℕ)
    → InRange p n r
    → ((q : ℕ) (d : ℤ) → p < q → k q d ≡ k' q d)
    → scanned r k ≡ scanned r k'
scanned-ap (go q d) k k' p n b same = same q d b.0
scanned-ap (ends q) k k' p n b same = refl
scanned-ap (leave q) k k' p n b same = refl

-- More fuel than bytes left is enough.
pub scan_fuel :
    (f g : ℕ) (buf : Bytes) (p : ℕ) (d : ℤ)
    → length buf - p < f
    → length buf - p < g
    → scan f buf p d ≡ scan g buf p d
unfolding scan
scan_fuel zero g buf p d h k = absurd (omega arith)
scan_fuel (suc f) zero buf p d h k = absurd (omega arith)
scan_fuel (suc f) (suc g) buf p d h k = elim (Bool-cases (ltb p (length buf))) [
  | inr e ↦ rw e
  | inl e ↦
      let lt = ltb→lt p (length buf) e in
      rw e (
        scanned-ap (scan_round buf p d) _ _ p (length buf) (round-InRange buf p d lt)
          λ q d' b. scan_fuel f g buf q d' (omega arith) (omega arith))
]

-- The main loop with all its fuel makes one round and goes on with all its fuel.
pub scan_step :
    (buf : Bytes) (p : ℕ) (d : ℤ)
    → p < length buf
    → scan (length buf + 1) buf p d ≡ scanned (scan_round buf p d) (scan (length buf + 1) buf)
scan_step buf p d h =
    scan_fuel (length buf + 1) (suc (length buf + 1)) buf p d (omega arith) (omega arith)
    ∙ unfold scan in rw (lt→ltb p (length buf) h)

pub scan_at_end :
    (f : ℕ) (buf : Bytes) (p : ℕ) (d : ℤ) → length buf ≤ p → scan f buf p d ≡ incomplete p
unfolding scan
scan_at_end zero buf p d h = refl
scan_at_end (suc f) buf p d h = rw (ltb-false p (length buf) h)

-- The two loops make the same round, but for where they leave the loop.
data SameRound (buf : Bytes) (p : ℕ) : Round → Round → Type 0 where
  both_go : (q : ℕ) (d : ℤ) → SameRound buf p (go q d) (go q d)
  both_end : (e : ℕ) → SameRound buf p (ends e) (ends e)
  both_leave : SameRound buf p (leave p) (leave p)
  past_end : SameRound buf p (leave p) (leave (length buf))

SameRound-if :
    {buf : Bytes} {p : ℕ} {r r' s s' : Round} (b : Bool)
    → SameRound buf p r r'
    → SameRound buf p s s'
    → SameRound buf p (if b then r else s) (if b then r' else s')
SameRound-if true h k = h
SameRound-if false h k = k

module _ (buf : Bytes) (p : ℕ) (d : ℤ) where
  literal-SameRound :
      (o : Option ℕ) (k : ℕ)
      → SameRound buf p (after_literal o k d p) (after_literal o k d (length buf))
  literal-SameRound none k = past_end
  literal-SameRound (some e) k = both_go (e + k) d

  close-SameRound : (o : Option ℕ) → SameRound buf p (after_close o d p) (after_close o d p)
  close-SameRound none = both_leave
  close-SameRound (some gt) = SameRound-if (is_zero (decr d)) (both_end _) (both_go _ _)

  open-SameRound : (o : Option (ℕ × Bool)) → SameRound buf p (after_open o d p) (after_open o d p)
  open-SameRound none = both_leave
  open-SameRound (some (gt, true)) = SameRound-if (is_zero d) (both_end _) (both_go _ _)
  open-SameRound (some (gt, false)) = both_go _ _

  round-SameRound : SameRound buf p (scan_round buf p d) (resume_round buf p d)
  unfolding scan_round resume_round
  round-SameRound = SameRound-if (not (is_prefix (b'<' ∷ []) (drop p buf))) (both_go _ _) (
      SameRound-if (is_prefix comment_open (drop p buf)) (literal-SameRound _ 3) (
        SameRound-if (is_prefix instruction_open (drop p buf)) (literal-SameRound _ 2)
          (SameRound-if (is_prefix tag_close (drop p buf)) (close-SameRound _) (open-SameRound _))))

-- A round of the first loop, then the rest of both loops.
resumed-element_end :
    (buf : Bytes) (p : ℕ) (d : ℤ) (k : ℕ → ℤ → Resumed) {r r' : Round}
    → SameRound buf p r r'
    → scan (length buf + 1) buf p d ≡ scanned r (scan (length buf + 1) buf)
    → ((q : ℕ) (d' : ℤ)
        → element_end (then_scan buf (k q d')) ≡ element_end (scan (length buf + 1) buf q d'))
    → element_end (then_scan buf (resumed r' d k)) ≡ element_end (scan (length buf + 1) buf p d)
resumed-element_end buf p d k (both_go q d') step ih = rw step (ih q d')
resumed-element_end buf p d k (both_end e) step ih = rw step
resumed-element_end buf p d k both_leave step ih = refl
resumed-element_end buf p d k past_end step ih =
    rw (step, scan_at_end (length buf + 1) buf (length buf) d (omega arith))

resume-element_end :
    (f : ℕ) (buf : Bytes) (scan_from p : ℕ) (d : ℤ)
    → element_end (then_scan buf (resume f buf scan_from p d))
      ≡ element_end (scan (length buf + 1) buf p d)
unfolding resume
resume-element_end zero buf scan_from p d = refl
resume-element_end (suc f) buf scan_from p d =
    elim (Bool-cases (ltb p scan_from && ltb p (length buf))) [
      | inr e ↦ rw e
      | inl e ↦ rw e (
          resumed-element_end buf p d (resume f buf scan_from) (round-SameRound buf p d)
            (scan_step buf p d (ground arith)) (resume-element_end f buf scan_from))
    ]

-- Wherever `scan_from` says that the buffer was read before, the element ends where the plain scan
-- from its start ends it, and it is complete exactly when that scan completes it.
pub find_element_end-scan_from :
    (buf : Bytes) (start scan_from : ℕ)
    → element_end (find_element_end buf start scan_from)
      ≡ element_end (scan (length buf + 1) buf start (pos 0))
unfolding find_element_end
find_element_end-scan_from buf start scan_from = elim (Bool-cases (ltb (start + 1) scan_from)) [
  | inl e ↦ rw e (resume-element_end (length buf + 1) buf scan_from start (pos 0))
  | inr e ↦ rw e
]
