-- ===== src/Transport/Splitter/Shift.antt =====
-- The scan depends on the bytes from its position on only: cutting bytes off the front of the
-- buffer moves every position by their number.
use indi_engine.Base.{
  ℕ, zero, suc, ◌+◌, ◌<◌, ◌≤◌, ◌≡◌, refl, ap, Option, none, some, [], ◌∷◌, drop, length, ltb, arith,
  Bool, true, false, not, Bool-cases, inl, inr, if◌then◌else◌,
}
use native.Mathlib.Nat.{add_assoc}
use indi_engine.Base.Int.{ℤ, incr, decr, is_zero}
use indi_engine.Base.Lists.{length-drop, drop-drop}
use indi_engine.Base.Numbers.{◌==◌, lt→ltb, ltb→lt, ltb-false}
use indi_engine.Transport.Bytes.{Bytes, is_prefix, find, find_from}
use indi_engine.Transport.Splitter.{
  Round, go, ends, leave, Outcome, scan, scanned, scan_round, comment_open, comment_close,
  instruction_open, instruction_close, tag_close, gt_from, find_gt, tag_gt_from, find_tag_gt,
  after_literal, after_close, after_open,
}
use indi_engine.Transport.Splitter.Resume.{element_end}

abbrev pub moved : ℕ → Option ℕ → Option ℕ
moved k none = none
moved k (some p) = some (k + p)

abbrev moved_tag : ℕ → Option (ℕ × Bool) → Option (ℕ × Bool)
moved_tag k none = none
moved_tag k (some (p, s)) = some (k + p, s)

abbrev pub shift : ℕ → Round → Round
shift k (go p d) = go (k + p) d
shift k (ends p) = ends (k + p)
shift k (leave p) = leave (k + p)

find_from-moved :
    (lit rest : Bytes) (k p : ℕ) → find_from lit rest (k + p) ≡ moved k (find_from lit rest p)
unfolding find_from
find_from-moved lit [] k p = ground arith
find_from-moved lit (b ∷ rest) k p =
    let next : k + p + 1 ≡ k + (p + 1) = omega arith in
    rw next (ground (arith, find_from-moved lit rest k (p + 1)))

gt_from-moved :
    (quote : Option ℕ) (rest : Bytes) (k p : ℕ)
    → gt_from quote rest (k + p) ≡ moved k (gt_from quote rest p)
unfolding gt_from
gt_from-moved quote [] k p = refl
gt_from-moved (some q) (c ∷ rest) k p =
    let next : k + p + 1 ≡ k + (p + 1) = omega arith in
    rw next (gt_from-moved (if c == q then none else some q) rest k (p + 1))
gt_from-moved none (c ∷ rest) k p =
    let next : k + p + 1 ≡ k + (p + 1) = omega arith in
    rw next (
      ground (
        arith,
        gt_from-moved (some b'"') rest k (p + 1),
        gt_from-moved (some 39) rest k (p + 1),
        gt_from-moved none rest k (p + 1),
      ))

tag_gt_from-moved :
    (quote : Option ℕ) (rest : Bytes) (k p : ℕ)
    → tag_gt_from quote rest (k + p) ≡ moved_tag k (tag_gt_from quote rest p)
unfolding tag_gt_from
tag_gt_from-moved quote [] k p = refl
tag_gt_from-moved (some q) (c ∷ rest) k p =
    let next : k + p + 1 ≡ k + (p + 1) = omega arith in
    rw next (tag_gt_from-moved (if c == q then none else some q) rest k (p + 1))
tag_gt_from-moved none (c ∷ rest) k p =
    let next : k + p + 1 ≡ k + (p + 1) = omega arith in
    rw next (
      ground (
        arith,
        tag_gt_from-moved (some b'"') rest k (p + 1),
        tag_gt_from-moved (some 39) rest k (p + 1),
        tag_gt_from-moved none rest k (p + 1),
      ))

shift-if :
    (k : ℕ) (b : Bool) (r' s' : Round) {r s : Round}
    → r ≡ shift k r'
    → s ≡ shift k s'
    → (if b then r else s) ≡ shift k (if b then r' else s')
shift-if k true r' s' h i = h
shift-if k false r' s' h i = i

after_literal-shift :
    (o : Option ℕ) (k j : ℕ) (d : ℤ) (p : ℕ)
    → after_literal (moved k o) j d (k + p) ≡ shift k (after_literal o j d p)
after_literal-shift none k j d p = refl
after_literal-shift (some e) k j d p = ap (λ q. go q d) (omega arith)

after_close-shift :
    (o : Option ℕ) (k : ℕ) (d : ℤ) (p : ℕ)
    → after_close (moved k o) d (k + p) ≡ shift k (after_close o d p)
after_close-shift none k d p = refl
after_close-shift (some g) k d p =
    shift-if k (is_zero (decr d)) _ _ (ap ends (omega arith))
      (ap (λ q. go q (decr d)) (omega arith))

after_open-shift :
    (o : Option (ℕ × Bool)) (k : ℕ) (d : ℤ) (p : ℕ)
    → after_open (moved_tag k o) d (k + p) ≡ shift k (after_open o d p)
after_open-shift none k d p = refl
after_open-shift (some (g, true)) k d p =
    shift-if k (is_zero d) _ _ (ap ends (omega arith)) (ap (λ q. go q d) (omega arith))
after_open-shift (some (g, false)) k d p = ap (λ q. go q (incr d)) (omega arith)

find-drop :
    (lit buf : Bytes) (k p j : ℕ)
    → find lit buf (k + p + j) ≡ moved k (find lit (drop k buf) (p + j))
unfolding find
find-drop lit buf k p j =
    rw (drop-drop k (p + j) buf, add_assoc k p j) (find_from-moved lit _ k (p + j))

find_gt-drop :
    (buf : Bytes) (k p j : ℕ) → find_gt buf (k + p + j) ≡ moved k (find_gt (drop k buf) (p + j))
unfolding find_gt
find_gt-drop buf k p j =
    rw (drop-drop k (p + j) buf, add_assoc k p j)
      (gt_from-moved none (drop (k + (p + j)) buf) k (p + j))

find_tag_gt-drop :
    (buf : Bytes) (k p j : ℕ)
    → find_tag_gt buf (k + p + j) ≡ moved_tag k (find_tag_gt (drop k buf) (p + j))
unfolding find_tag_gt
find_tag_gt-drop buf k p j =
    rw (drop-drop k (p + j) buf, add_assoc k p j)
      (tag_gt_from-moved none (drop (k + (p + j)) buf) k (p + j))

pub round-shift :
    (buf : Bytes) (k p : ℕ) (d : ℤ)
    → scan_round buf (k + p) d ≡ shift k (scan_round (drop k buf) p d)
unfolding scan_round
round-shift buf k p d = rw (drop-drop k p buf) (
    shift-if k (not (is_prefix (b'<' ∷ []) (drop (k + p) buf))) _ _ (ap (λ q. go q d) (omega arith))
      (shift-if k (is_prefix comment_open (drop (k + p) buf)) _ _
        (rw (find-drop comment_close buf k p 4) (after_literal-shift _ k 3 d p))
        (shift-if k (is_prefix instruction_open (drop (k + p) buf)) _ _
          (rw (find-drop instruction_close buf k p 2) (after_literal-shift _ k 2 d p))
          (shift-if k (is_prefix tag_close (drop (k + p) buf)) _ _
            (rw (find_gt-drop buf k p 2) (after_close-shift _ k d p))
            (rw (find_tag_gt-drop buf k p 1) (after_open-shift _ k d p))))))

scanned-shift :
    (r : Round) (k : ℕ) (f g : ℕ → ℤ → Outcome)
    → ((p : ℕ) (d : ℤ) → element_end (f (k + p) d) ≡ moved k (element_end (g p d)))
    → element_end (scanned (shift k r) f) ≡ moved k (element_end (scanned r g))
scanned-shift (go p d) k f g same = same p d
scanned-shift (ends p) k f g same = refl
scanned-shift (leave p) k f g same = refl

-- An element that starts `k` bytes into the buffer ends `k` bytes after the end that the scan of
-- the rest alone finds.
pub scan-drop :
    (f : ℕ) (buf : Bytes) (k p : ℕ) (d : ℤ)
    → element_end (scan f buf (k + p) d) ≡ moved k (element_end (scan f (drop k buf) p d))
unfolding scan
scan-drop zero buf k p d = refl
scan-drop (suc f) buf k p d = elim (Bool-cases (ltb p (length (drop k buf)))) [
  | inl e ↦
      let lt = ltb→lt p (length (drop k buf)) e in
      let within : k + p < length buf = omega (arith, length-drop k buf) in
      rw (e, lt→ltb (k + p) (length buf) within, round-shift buf k p d)
        (scanned-shift (scan_round (drop k buf) p d) k (scan f buf) (scan f (drop k buf))
          (scan-drop f buf k))
  | inr e ↦
      let past : length (drop k buf) ≤ p = ground arith in
      let outside : length buf ≤ k + p = omega (arith, length-drop k buf) in
      rw (e, ltb-false (k + p) (length buf) outside)
]
