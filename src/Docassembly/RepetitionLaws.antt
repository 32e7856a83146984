-- ===== src/Docassembly/RepetitionLaws.antt =====
-- What truncate_repetitive_content cuts, and when.
use turbo_ocr.Common.{
  ℕ, zero, suc, ◌+◌, ◌*◌, ◌/◌, ◌≤◌, ◌<◌, ◌≡◌, refl, sym, ap, subst, ◌∙◌, ◌&&◌, ◌||◌, Option, none,
  some, List, [], ◌∷◌, arith, ltb, leb, leb→le, ltb→lt, if◌then◌else◌, is_empty, length, trim,
  Bytes, bytes_eq, bytes_eq_iff, Bool-cases, inl, inr,
}
use mathlib.Core.Option.{some-injective}
use native.Mathlib.Nat.{mul-div_cancel, div-zero}
use turbo_ocr.Docassembly.RepetitionGuard.{
  Suffix, find_repeating_suffix, find_shortest_repeating_substring, lines_of, count_at, increment,
  best_line, is_scannable, cut_suffix, phrase_pass, cut_unit, char_pass, cut_lines, line_pass,
  first_of, or_pass, truncate_repetitive_content,
}
use turbo_ocr.Docassembly.Repeats.{repeat, length-repeat, find_shortest_repeating_substring-repeat}
use turbo_ocr.Docassembly.Suffixes.{IsSuffix, suffix_from-IsSuffix}

abbrev pub occurrences : Bytes → List Bytes → ℕ
occurrences l [] = 0
occurrences l (k ∷ ks) = (if bytes_eq l k then 1 else 0) + occurrences l ks

increment-here :
    (l : Bytes) (counts : List (Bytes × ℕ)) (ls all : List Bytes)
    → count_at l counts + occurrences l (l ∷ ls) ≤ occurrences l all
    → count_at l counts + 1 + occurrences l ls ≤ occurrences l all
increment-here l counts ls all h =
    let same = (bytes_eq_iff l l).1 refl in let h' = rw same at h in omega arith

increment-le :
    (l : Bytes) (counts : List (Bytes × ℕ)) (ls all : List Bytes) (k : Bytes)
    → count_at l counts + occurrences l (l ∷ ls) ≤ occurrences l all
    → count_at k counts + occurrences k (l ∷ ls) ≤ occurrences k all
    → count_at k (increment l counts) + occurrences k ls ≤ occurrences k all
increment-le l counts ls all k hl hk = elim (Bool-cases (bytes_eq l k)) [
  | inl e ↦ rw e (
      subst (λ x. count_at l counts + 1 + occurrences x ls ≤ occurrences x all)
        ((bytes_eq_iff l k).0 e) (increment-here l counts ls all hl))
  | inr e ↦ rw e (omega arith)
]

-- The best count is never more than what the line has.
best_line-le :
    (ls all : List Bytes) (counts : List (Bytes × ℕ)) (best : Bytes) (best_count : ℕ)
    → ((l : Bytes) → count_at l counts + occurrences l ls ≤ occurrences l all)
    → best_count ≤ occurrences best all
    → let r = best_line ls counts best best_count in r.1 ≤ occurrences r.0 all
unfolding best_line
best_line-le [] all counts best best_count h le = le
best_line-le (l ∷ ls) all counts best best_count h le =
    let c = count_at l counts + 1 in
    let here = increment-here l counts ls all (h l) in
    let after = λ (k : Bytes). increment-le l counts ls all k (h l) (h k) in
    let better = ltb best_count c in
    best_line-le ls all (increment l counts) (if better then l else best)
      (if better then c else best_count) after
      (elim (Bool-cases better) [ inl e ↦ rw e (omega (arith, here)) | inr e ↦ rw e le ])

-- What the code may return for a text.
pub data Truncated (content : Bytes) (line_threshold char_threshold : ℕ) : Bytes → Type 0 where
  kept : Truncated content line_threshold char_threshold content
  tail_cut :
      (m : Suffix)
      → IsSuffix (trim content) 8 5 m
      → length (trim content) < 2 * (length m.unit * m.count)
      → Truncated content line_threshold char_threshold m.prefix
  copies_cut :
      {unit : Bytes} (k : ℕ)
      → trim content ≡ repeat k unit
      → char_threshold ≤ k
      → Truncated content line_threshold char_threshold unit
  lines_cut :
      {line : Bytes}
      → 0 < occurrences line (lines_of content)
      → line_threshold ≤ occurrences line (lines_of content)
      → 4 * length (lines_of content) ≤ 5 * occurrences line (lines_of content)
      → Truncated content line_threshold char_threshold line

quotient_le : (n u k t : ℕ) → n ≡ k * u → t ≤ n / u → t ≤ k
quotient_le n zero k t e le = omega (arith, div-zero n)
quotient_le n (suc u) k t e le =
    let whole : n / suc u ≡ k =
      subst (λ m. m / suc u ≡ k) (sym e) (mul-div_cancel k (omega arith)) in
    omega (arith, whole)

module _ (content : Bytes) (line_threshold char_threshold : ℕ) where
  abbrev Cut : Bytes → Type 0
  Cut = Truncated content line_threshold char_threshold

  cut_suffix-Truncated :
      (o : Option Suffix) {cut : Bytes}
      → find_repeating_suffix (trim content) 8 5 ≡ o
      → 5 ≤ length (trim content)
      → cut_suffix (trim content) o ≡ some cut
      → Cut cut
  unfolding find_repeating_suffix
  cut_suffix-Truncated none e enough h = absurd (cc)
  cut_suffix-Truncated (some m) e enough h =
      let s = trim content in
      elim (Bool-cases (ltb (length s) (2 * (length m.unit * m.count)))) [
        | inl most ↦ subst Cut (some-injective _ _ (rw most at h)) (
            tail_cut m (suffix_from-IsSuffix (length s / 5) s 8 5 (omega arith) enough e)
              (ltb→lt _ _ most))
        | inr less ↦ let bad = rw less at h in absurd (cc)
      ]

  phrase_pass-Truncated : {cut : Bytes} → phrase_pass (trim content) ≡ some cut → Cut cut
  unfolding phrase_pass
  phrase_pass-Truncated h =
      let s = trim content in
      elim (Bool-cases (is_scannable s && ltb 100 (length s))) [
        | inl long ↦
            cut_suffix-Truncated (find_repeating_suffix s 8 5) refl (ground (arith, long))
              (rw long at h)
        | inr short ↦ let bad = rw short at h in absurd (cc)
      ]

  cut_unit-Truncated :
      (o : Option Bytes) {cut : Bytes}
      → find_shortest_repeating_substring (trim content) ≡ o
      → cut_unit char_threshold (trim content) o ≡ some cut
      → Cut cut
  cut_unit-Truncated none e h = absurd (cc)
  cut_unit-Truncated (some unit) e h =
      let s = trim content in
      elim (Bool-cases (leb char_threshold (length s / length unit))) [
        | inl many ↦
            let (k, copies) = find_shortest_repeating_substring-repeat s e in
            subst Cut (some-injective _ _ (rw many at h)) (
              copies_cut k copies (
                quotient_le (length s) (length unit) k char_threshold
                  (ap length copies ∙ length-repeat k unit) (leb→le _ _ many)))
        | inr few ↦ let bad = rw few at h in absurd (cc)
      ]

  char_pass-Truncated :
      (min_len : ℕ) {cut : Bytes}
      → char_pass char_threshold min_len (trim content) ≡ some cut
      → Cut cut
  unfolding char_pass
  char_pass-Truncated min_len h =
      let s = trim content in
      elim (Bool-cases (is_scannable s && ltb min_len (length s))) [
        | inl long ↦ cut_unit-Truncated (find_shortest_repeating_substring s) refl (rw long at h)
        | inr short ↦ let bad = rw short at h in absurd (cc)
      ]

  cut_lines-Truncated :
      (best : Bytes) (best_count : ℕ) {cut : Bytes}
      → best_count ≤ occurrences best (lines_of content)
      → cut_lines line_threshold (length (lines_of content)) (best, best_count) ≡ some cut
      → Cut cut
  cut_lines-Truncated best best_count le h =
      let total = length (lines_of content) in
      let most =
        (ltb 0 best_count && leb line_threshold best_count) && leb (4 * total) (5 * best_count) in
      elim (Bool-cases most) [
        | inl e ↦
            subst Cut (some-injective _ _ (rw e at h))
              (lines_cut (ground (arith, e, le)) (ground (arith, e, le)) (ground (arith, e, le)))
        | inr e ↦ let bad = rw e at h in absurd (cc)
      ]

  line_pass-Truncated :
      {cut : Bytes} → line_pass line_threshold (lines_of content) ≡ some cut → Cut cut
  unfolding line_pass
  line_pass-Truncated h =
      let lines = lines_of content in
      let r = best_line lines [] [] 0 in
      let le = best_line-le lines lines [] [] 0 (λ l. omega arith) (omega arith) in
      elim (Bool-cases (is_empty lines || ltb (length lines) line_threshold)) [
        | inl few ↦ let bad = rw few at h in absurd (cc)
        | inr many ↦ cut_lines-Truncated r.0 r.1 le (rw many at h)
      ]

  -- The three passes in the order of their priority.
  passes-Truncated :
      (min_len : ℕ) (o p q : Option Bytes)
      → phrase_pass (trim content) ≡ o
      → char_pass char_threshold min_len (trim content) ≡ p
      → line_pass line_threshold (lines_of content) ≡ q
      → Cut (first_of (or_pass o (or_pass p q)) content)
  passes-Truncated min_len (some cut) p q e f g = phrase_pass-Truncated e
  passes-Truncated min_len none (some cut) q e f g = char_pass-Truncated min_len f
  passes-Truncated min_len none none (some cut) e f g = line_pass-Truncated g
  passes-Truncated min_len none none none e f g = kept

  -- Whatever the text and the thresholds, the result is the text itself; or, of the trimmed text, what
  -- stands before five or more copies of a unit of eight or more bytes, all the copies at its end, which
  -- make up more than half of it; or the unit that the whole of it is at least `char_threshold` copies
  -- of; or one of its trimmed lines, which is at least `line_threshold` and four fifths of the lines.
  pub truncate_repetitive_content-Truncated :
      (min_len min_count : ℕ)
      → Truncated content line_threshold char_threshold
          (truncate_repetitive_content content line_threshold char_threshold min_len min_count)
  unfolding truncate_repetitive_content
  truncate_repetitive_content-Truncated min_len min_count =
      elim (Bool-cases (ltb (length content) min_count)) [
        | inl short ↦ rw short kept
        | inr long ↦ rw long (elim (Bool-cases (is_empty (trim content))) [
          | inl blank ↦ rw blank kept
          | inr text ↦ rw text (passes-Truncated min_len _ _ _ refl refl refl)
        ])
      ]
