-- ===== src/Docassembly/Suffixes.antt =====
-- What find_repeating_suffix of src/docassembly/repetition_guard.cpp finds.
use turbo_ocr.Common.{
  ℕ, zero, suc, ◌+◌, ◌-◌, ◌*◌, ◌≤◌, ◌<◌, ◌≡◌, sym, subst, ◌∙◌, true, false, some, ◌++◌, arith, ltb,
  length, take, drop, Bytes, Bool-cases, inl, inr,
}
use mathlib.Core.Option.{some-injective}
use turbo_ocr.Docassembly.RepetitionGuard.{
  unit_before, is_unit_before, ends_with, count_back, Suffix, suffix_of, suffix_at, suffix_from,
}
use turbo_ocr.Docassembly.Repeats.{repeat, take-all, length-take, length-drop, count_back-Splits}

-- The loop counts at least the copies that were checked.
count_back-ge :
    (m fuel : ℕ) (s unit : Bytes) (stop count : ℕ)
    → m ≤ fuel
    → ends_with m s unit stop ≡ true
    → count + m ≤ (count_back fuel s unit stop count).1
unfolding count_back ends_with
count_back-ge zero fuel s unit stop count le h =
    let (k, total, _, _) = count_back-Splits fuel s unit stop count in omega arith
count_back-ge (suc m) zero s unit stop count le h = absurd (omega arith)
count_back-ge (suc m) (suc fuel) s unit stop count le h =
    let there : is_unit_before s unit stop ≡ true = ground (arith, h) in
    let later =
      count_back-ge m fuel s unit (stop - length unit) (count + 1) (omega arith)
        (ground (arith, h)) in
    rw there (omega (arith, later))

-- The loop stops where no copy stands.
count_back-stops :
    (fuel : ℕ) (s unit : Bytes) (stop count : ℕ)
    → stop ≤ fuel
    → 0 < length unit
    → is_unit_before s unit (count_back fuel s unit stop count).0 ≡ false
unfolding count_back
count_back-stops zero s unit stop count le h = ground arith
count_back-stops (suc fuel) s unit stop count le h =
    elim (Bool-cases (is_unit_before s unit stop)) [
      | inl there ↦
          rw there (count_back-stops fuel s unit (stop - length unit) (count + 1) (omega arith) h)
      | inr gone ↦ rw gone gone
    ]

-- A suffix of at least `min_repeats` copies of a unit of at least `min_len` bytes, with no other copy
-- before them.
abbrev pub IsSuffix : Bytes → ℕ → ℕ → Suffix → Type 0
IsSuffix s min_len min_repeats m =
    (s ≡ m.prefix ++ repeat m.count m.unit)
    × (min_repeats ≤ m.count)
    × (min_len ≤ length m.unit)
    × (0 < length m.unit)
    × (is_unit_before s m.unit (length m.prefix) ≡ false)

suffix_of-IsSuffix :
    (s unit : Bytes) (min_len min_repeats end count k : ℕ)
    → count ≡ k
    → length s ≡ end + k * length unit
    → take (length s) s ≡ take end s ++ repeat k unit
    → min_repeats ≤ count
    → min_len ≤ length unit
    → 0 < length unit
    → is_unit_before s unit end ≡ false
    → IsSuffix s min_len min_repeats (suffix_of s unit count)
suffix_of-IsSuffix s unit min_len min_repeats end count k same size copies enough long h stops =
    let end_lem : length s - count * length unit ≡ end =
      subst (λ c. length s - c * length unit ≡ end) (sym same) (omega (arith, size)) in
    rw (end_lem, same)
      (
        sym (take-all s) ∙ copies,
        subst (λ c. min_repeats ≤ c) same enough,
        long,
        h,
        subst (λ e. is_unit_before s unit e ≡ false) (sym (length-take end s (omega (arith, size))))
            stops,
      )

suffix_at-IsSuffix :
    (s unit : Bytes) (min_len min_repeats : ℕ)
    → min_repeats ≤ length s
    → min_len ≤ length unit
    → 0 < length unit
    → ends_with min_repeats s unit (length s) ≡ true
    → IsSuffix s min_len min_repeats (suffix_at s unit)
suffix_at-IsSuffix s unit min_len min_repeats le long h e =
    let n = length s in
    let r = count_back n s unit n 0 in
    let (k, total, ends, copies) = count_back-Splits n s unit n 0 in
    suffix_of-IsSuffix s unit min_len min_repeats r.0 r.1 k (omega (arith, total)) ends copies
      (omega (arith, count_back-ge min_repeats n s unit n 0 le e)) long h
      (count_back-stops n s unit n 0 (omega arith) h)

length-unit_before : (s : Bytes) (i : ℕ) → i ≤ length s → length (unit_before s i (length s)) ≡ i
length-unit_before s i h =
    length-take i (drop (length s - i) s) (omega (arith, length-drop (length s - i) s))

pub suffix_from-IsSuffix :
    (i : ℕ) (s : Bytes) (min_len min_repeats : ℕ) {m : Suffix}
    → i ≤ length s
    → min_repeats ≤ length s
    → suffix_from i s min_len min_repeats ≡ some m
    → IsSuffix s min_len min_repeats m
unfolding suffix_from
suffix_from-IsSuffix zero s min_len min_repeats le enough e = absurd (cc)
suffix_from-IsSuffix (suc j) s min_len min_repeats le enough e =
    let unit = unit_before s (suc j) (length s) in
    let size = length-unit_before s (suc j) le in
    elim (Bool-cases (ltb (suc j) min_len)) [
      | inl short ↦ let bad = rw short at e in absurd (cc)
      | inr long ↦ elim (Bool-cases (ends_with min_repeats s unit (length s))) [
        | inl found ↦
            subst (IsSuffix s min_len min_repeats) (some-injective _ _ (rw (long, found) at e)) (
              suffix_at-IsSuffix s unit min_len min_repeats enough (ground (arith, size, long))
                (omega (arith, size)) found)
        | inr other ↦
            suffix_from-IsSuffix j s min_len min_repeats (omega arith) enough
              (rw (long, other) at e)
      ]
    ]
