-- ===== src/Recognition/Tests.antt =====
-- A short line of text decoded, and the theorems at it.
use turbo_ocr.Common.{
  Floats, ℕ, ◌≡◌, refl, zero, suc, ◌<◌, true, false, some, get_elem?, arith, ◌+◌, ◌-◌, ◌*◌, ◌/◌,
  List, [], ◌∷◌, none, ltb, leb, ℤ, pos, negsuc, Bytes, codes,
}
use mathlib.Core.Option.{some-injective}
use turbo_ocr.Recognition.Ctc.{
  Frame, emit, ctc_step, ctc_loop, ctc_greedy_decode, argmax_from, raw_loop, ctc_greedy_decode_raw,
}
use turbo_ocr.Recognition.CtcLaws.{
  concat, Aligns, blank, repeated, labelled, ended, ctc_greedy_decode-Aligns, AreFirstMax,
  ctc_greedy_decode_raw-Aligns,
}

abbrev whole : ℤ → ℕ
whole (pos n) = n
whole (negsuc n) = 0

-- Natural numbers for floats.
abbrev naturals : Floats
naturals = record {
  F = ℕ;
  of_int = whole;
  ratio = λ n d. n / d;
  add = λ a b. a + b;
  sub = λ a b. a - b;
  mul = λ a b. a * b;
  div = λ a b. a / b;
  fabs = λ a. a;
  log1p = λ a. a;
  lt = ltb;
  le = leb;
}

abbrev letters : List Bytes
letters = codes "_" ∷ codes "a" ∷ codes "b" ∷ []

-- a a _ a b, with a score of 10 for each.
abbrev line : List (Frame naturals)
line = (1, 10) ∷ (1, 10) ∷ (0, 10) ∷ (1, 10) ∷ (2, 10) ∷ []

abbrev texts : List Bytes
texts = codes "a" ∷ codes "a" ∷ codes "b" ∷ []

abbrev line-Aligns : Aligns naturals letters none texts line
line-Aligns =
    labelled 1 10 refl refl refl
      (repeated 10 (blank 10 (labelled 1 10 refl refl refl (labelled 2 10 refl refl refl ended))))

ctc_greedy_decode-Aligns_example : (ctc_greedy_decode naturals letters line).0 ≡ concat texts
ctc_greedy_decode-Aligns_example = ctc_greedy_decode-Aligns naturals letters texts line line-Aligns

reads_aab : ctc_greedy_decode naturals letters line ≡ (codes "aab", 10)
unfolding ctc_greedy_decode ctc_loop ctc_step emit
reads_aab = refl

abbrev logits : List (ℕ × List ℕ)
logits = (1, 7 ∷ 2 ∷ []) ∷ (9, 3 ∷ 3 ∷ []) ∷ (0, 4 ∷ 5 ∷ []) ∷ []

-- The first maxima of the rows: a _ b.
abbrev maxima : List (Frame naturals)
maxima = (1, 7) ∷ (0, 9) ∷ (2, 5) ∷ []

logits-AreFirstMax : AreFirstMax naturals letters logits maxima
logits-AreFirstMax = (
  (refl, before_one, behind_one),
  (
    (refl, (λ j w e near. absurd (omega arith)), behind_two),
    ((refl, before_three, behind_three), tt),
  ),
)
  where
    before_one : (j w : ℕ) → get_elem? (1 ∷ 7 ∷ 2 ∷ []) j ≡ some w → j < 1 → ltb w 7 ≡ true
    before_one zero w e near = ground (arith, some-injective 1 w e)
    before_one (suc j) w e near = absurd (omega arith)

    behind_one : (j w : ℕ) → get_elem? (1 ∷ 7 ∷ 2 ∷ []) j ≡ some w → 1 < j → ltb 7 w ≡ false
    behind_one zero w e far = absurd (omega arith)
    behind_one (suc zero) w e far = absurd (omega arith)
    behind_one (suc (suc zero)) w e far = ground (arith, some-injective 2 w e)
    behind_one (suc (suc (suc j))) w e far = absurd (cc e)

    behind_two : (j w : ℕ) → get_elem? (9 ∷ 3 ∷ 3 ∷ []) j ≡ some w → 0 < j → ltb 9 w ≡ false
    behind_two zero w e far = absurd (omega arith)
    behind_two (suc zero) w e far = ground (arith, some-injective 3 w e)
    behind_two (suc (suc zero)) w e far = ground (arith, some-injective 3 w e)
    behind_two (suc (suc (suc j))) w e far = absurd (cc e)

    before_three : (j w : ℕ) → get_elem? (0 ∷ 4 ∷ 5 ∷ []) j ≡ some w → j < 2 → ltb w 5 ≡ true
    before_three zero w e near = ground (arith, some-injective 0 w e)
    before_three (suc zero) w e near = ground (arith, some-injective 4 w e)
    before_three (suc (suc j)) w e near = absurd (omega arith)

    behind_three : (j w : ℕ) → get_elem? (0 ∷ 4 ∷ 5 ∷ []) j ≡ some w → 2 < j → ltb 5 w ≡ false
    behind_three (suc (suc (suc j))) w e far = absurd (cc e)
    behind_three zero w e far = absurd (omega arith)
    behind_three (suc zero) w e far = absurd (omega arith)
    behind_three (suc (suc zero)) w e far = absurd (omega arith)

maxima-Aligns : Aligns naturals letters none (codes "a" ∷ codes "b" ∷ []) maxima
maxima-Aligns = labelled 1 7 refl refl refl (blank 9 (labelled 2 5 refl refl refl ended))

ctc_greedy_decode_raw-Aligns_example :
    (ctc_greedy_decode_raw naturals letters logits).0 ≡ concat (codes "a" ∷ codes "b" ∷ [])
ctc_greedy_decode_raw-Aligns_example =
    ctc_greedy_decode_raw-Aligns naturals letters (codes "a" ∷ codes "b" ∷ []) logits maxima
      logits-AreFirstMax maxima-Aligns

reads_ab : ctc_greedy_decode_raw naturals letters logits ≡ (codes "ab", 6)
unfolding ctc_greedy_decode_raw raw_loop ctc_step emit argmax_from
reads_ab = refl
