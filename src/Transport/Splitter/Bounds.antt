-- ===== src/Transport/Splitter/Bounds.antt =====
-- The positions that the splitter finds lie in the buffer, and each round moves forward.
use indi_engine.Base.{
  ℕ, ◌+◌, ◌<◌, ◌≤◌, ◌≡◌, refl, Option, none, some, [], ◌∷◌, drop, length, arith, Bool, true, false,
  not, Option-cases, inl, inr, if◌then◌else◌,
}
use indi_engine.Base.Int.{ℤ, decr, is_zero}
use indi_engine.Base.Lists.{length-drop}
use indi_engine.Base.Numbers.{◌==◌}
use indi_engine.Transport.Bytes.{Bytes, is_prefix, find, find_from}
use indi_engine.Transport.Splitter.{
  Round, go, ends, leave, scan_round, comment_open, comment_close, instruction_open,
  instruction_close, tag_close, gt_from, find_gt, tag_gt_from, closes_self, find_tag_gt,
  after_literal, after_close, after_open,
}

pub is_prefix-length : (lit rest : Bytes) → is_prefix lit rest ≡ true → length lit ≤ length rest
unfolding is_prefix
is_prefix-length [] rest h = omega arith
is_prefix-length (c ∷ lit) [] h = cc
is_prefix-length (c ∷ lit) (b ∷ rest) h = ground (arith, is_prefix-length lit rest)

gt_from_bounds :
    (quote : Option ℕ) (rest : Bytes) (p g : ℕ)
    → gt_from quote rest p ≡ some g
    → (p ≤ g) × (g < p + length rest)
unfolding gt_from
gt_from_bounds quote [] p g h = cc
gt_from_bounds (some q) (c ∷ rest) p g h =
    let ih = gt_from_bounds (if c == q then none else some q) rest (p + 1) g h in omega arith
gt_from_bounds none (c ∷ rest) p g h = ground (
  arith,
  gt_from_bounds (some b'"') rest (p + 1) g,
  gt_from_bounds (some 39) rest (p + 1) g,
  gt_from_bounds none rest (p + 1) g,
)

tag_gt_from_bounds :
    (quote : Option ℕ) (rest : Bytes) (p g : ℕ) (s : Bool)
    → tag_gt_from quote rest p ≡ some (g, s)
    → (p ≤ g) × (g < p + length rest)
unfolding tag_gt_from closes_self
tag_gt_from_bounds quote [] p g s h = cc
tag_gt_from_bounds (some q) (c ∷ rest) p g s h =
    let ih = tag_gt_from_bounds (if c == q then none else some q) rest (p + 1) g s h in omega arith
tag_gt_from_bounds none (c ∷ []) p g s h = ground arith
tag_gt_from_bounds none (c ∷ d ∷ rest) p g s h = ground (
  arith,
  tag_gt_from_bounds (some b'"') (d ∷ rest) (p + 1) g s,
  tag_gt_from_bounds (some 39) (d ∷ rest) (p + 1) g s,
  tag_gt_from_bounds none (d ∷ rest) (p + 1) g s,
)

pub find_from_bounds :
    (lit rest : Bytes) (p e : ℕ)
    → find_from lit rest p ≡ some e
    → (p ≤ e) × (e + length lit ≤ p + length rest)
unfolding find_from
find_from_bounds lit [] p e h = ground (arith, is_prefix-length lit [])
find_from_bounds lit (b ∷ rest) p e h =
    ground (arith, is_prefix-length lit (b ∷ rest), find_from_bounds lit rest (p + 1) e)

-- Where a round at `p` in a buffer of length `n` may lead.
abbrev pub InRange : ℕ → ℕ → Round → Type 0
InRange p n (go q d) = (p < q) × (q ≤ n)
InRange p n (ends q) = (p < q) × (q ≤ n)
InRange p n (leave q) = q ≤ n

InRange-if :
    (p n : ℕ) (b : Bool) (r s : Round)
    → (b ≡ true → InRange p n r)
    → (b ≡ false → InRange p n s)
    → InRange p n (if b then r else s)
InRange-if p n true r s h k = h refl
InRange-if p n false r s h k = k refl

literal-InRange :
    (lit buf : Bytes) (j k p : ℕ) (d : ℤ)
    → p < length buf
    → 0 < k
    → length lit ≡ k
    → InRange p (length buf) (after_literal (find lit buf (p + j)) k d p)
unfolding find
literal-InRange lit buf j k p d h pos_k len =
    elim (Option-cases (find_from lit (drop (p + j) buf) (p + j))) [
      | inl e ↦ rw e (omega arith)
      | inr (q, e) ↦
          let bounds = find_from_bounds lit (drop (p + j) buf) (p + j) q e in
          rw e (omega (arith, length-drop (p + j) buf), omega (arith, length-drop (p + j) buf))
    ]

close-InRange :
    (buf : Bytes) (p : ℕ) (d : ℤ)
    → p < length buf
    → InRange p (length buf) (after_close (find_gt buf (p + 2)) d p)
unfolding find_gt
close-InRange buf p d h = elim (Option-cases (gt_from none (drop (p + 2) buf) (p + 2))) [
  | inl e ↦ rw e (omega arith)
  | inr (g, e) ↦
      let bounds = gt_from_bounds none (drop (p + 2) buf) (p + 2) g e in
      let within : g < length buf = omega (arith, length-drop (p + 2) buf) in
      rw e (InRange-if p (length buf) (is_zero (decr d)) _ _ (λ _. omega arith) (λ _. omega arith))
]

after_open-InRange :
    (o : Option (ℕ × Bool)) (p n : ℕ) (d : ℤ)
    → p < n
    → ((g : ℕ) (s : Bool) → o ≡ some (g, s) → (p < g) × (g < n))
    → InRange p n (after_open o d p)
after_open-InRange none p n d h b = omega arith
after_open-InRange (some (g, true)) p n d h b =
    let bounds = b g true refl in
    InRange-if p n (is_zero d) _ _ (λ _. omega arith) (λ _. omega arith)
after_open-InRange (some (g, false)) p n d h b = let bounds = b g false refl in omega arith

open-InRange :
    (buf : Bytes) (p : ℕ) (d : ℤ)
    → p < length buf
    → InRange p (length buf) (after_open (find_tag_gt buf (p + 1)) d p)
unfolding find_tag_gt
open-InRange buf p d h = after_open-InRange _ p (length buf) d h λ g s e.
    let bounds = tag_gt_from_bounds none (drop (p + 1) buf) (p + 1) g s e in
    omega (arith, length-drop (p + 1) buf)

pub round-InRange :
    (buf : Bytes) (p : ℕ) (d : ℤ) → p < length buf → InRange p (length buf) (scan_round buf p d)
unfolding scan_round
round-InRange buf p d h =
    InRange-if _ _ (not (is_prefix (b'<' ∷ []) (drop p buf))) _ _ (λ _. (omega arith, omega arith))
      (λ _.
        InRange-if _ _ (is_prefix comment_open (drop p buf)) _ _
          (λ _. literal-InRange comment_close buf 4 3 p d h (omega arith) refl)
          (λ _.
            InRange-if _ _ (is_prefix instruction_open (drop p buf)) _ _
              (λ _. literal-InRange instruction_close buf 2 2 p d h (omega arith) refl)
              (λ _.
                InRange-if _ _ (is_prefix tag_close (drop p buf)) _ _ (λ _. close-InRange buf p d h)
                  (λ _. open-InRange buf p d h))))
