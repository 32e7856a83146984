-- ===== src/Docassembly/Repeats.antt =====
-- Copies of a unit, and what the two detectors of repetition_guard.cpp find.
use turbo_ocr.Common.{
  ℕ, zero, suc, ◌+◌, ◌-◌, ◌*◌, ◌/◌, ◌≤◌, ◌≡◌, refl, sym, ap, subst, ◌∙◌, true, some, [], ◌∷◌, ◌++◌,
  append_assoc, append-nil, arith, leb→le, is_empty, length, length-append, take, drop, Bytes,
  bytes_eq, bytes_eq_iff, Bool-cases, inl, inr,
}
use mathlib.Core.Option.{some-injective}
use turbo_ocr.Docassembly.RepetitionGuard.{
  is_repeated, is_unit, shortest_from, find_shortest_repeating_substring, unit_before,
  is_unit_before, count_back,
}

abbrev pub repeat : ℕ → Bytes → Bytes
repeat zero unit = []
repeat (suc k) unit = unit ++ repeat k unit

pub length-repeat : (k : ℕ) (unit : Bytes) → length (repeat k unit) ≡ k * length unit
length-repeat zero unit = omega arith
length-repeat (suc k) unit = omega (arith, length-append unit (repeat k unit), length-repeat k unit)

pub take-drop : (n : ℕ) (s : Bytes) → take n s ++ drop n s ≡ s
take-drop zero s = refl
take-drop (suc n) [] = refl
take-drop (suc n) (x ∷ xs) = ap (◌∷◌ x) (take-drop n xs)

take-nil : (n : ℕ) → take {A = ℕ} n [] ≡ []
take-nil zero = refl
take-nil (suc n) = refl

take-add : (a b : ℕ) (s : Bytes) → take (a + b) s ≡ take a s ++ take b (drop a s)
take-add zero b s = ap (λ n. take n s) (omega arith)
take-add (suc a) b [] = take-nil (suc a + b) ∙ sym (take-nil b)
take-add (suc a) b (x ∷ xs) =
    let shift : suc a + b ≡ suc (a + b) = omega arith in rw shift (ap (◌∷◌ x) (take-add a b xs))

pub take-all : (s : Bytes) → take (length s) s ≡ s
take-all [] = refl
take-all (x ∷ xs) = ap (◌∷◌ x) (take-all xs)

pub length-take : (n : ℕ) (s : Bytes) → n ≤ length s → length (take n s) ≡ n
length-take zero s h = refl
length-take (suc n) [] h = omega arith
length-take (suc n) (x ∷ xs) h = ap suc (length-take n xs (omega arith))

pub length-drop : (n : ℕ) (s : Bytes) → length (drop n s) ≡ length s - n
length-drop zero s = omega arith
length-drop (suc n) [] = omega arith
length-drop (suc n) (x ∷ xs) = omega (arith, length-drop n xs)

pub is_empty-nil : (s : Bytes) → is_empty s ≡ true → s ≡ []
is_empty-nil [] e = refl
is_empty-nil (x ∷ xs) e = absurd (cc)

-- A rest that passes is made of copies of the unit.
is_repeated-repeat :
    (fuel : ℕ) (unit rest : Bytes)
    → is_repeated fuel unit rest ≡ true
    → (k : ℕ) × (rest ≡ repeat k unit)
unfolding is_repeated
is_repeated-repeat zero unit rest h = (0, is_empty-nil rest h)
is_repeated-repeat (suc fuel) unit rest h = elim (Bool-cases (is_empty rest)) [
  | inl empty ↦ (0, is_empty-nil rest empty)
  | inr more ↦
      let here : bytes_eq (take (length unit) rest) unit ≡ true = ground (arith, more, h) in
      let (k, e) =
        is_repeated-repeat fuel unit (drop (length unit) rest) (ground (arith, more, h)) in
      (
        suc k,
        sym (take-drop (length unit) rest)
            ∙ ap (λ front. front ++ drop (length unit) rest) ((bytes_eq_iff _ _).0 here)
            ∙ ap (◌++◌ unit) e,
      )
]

shortest_from-repeat :
    (left i : ℕ) (s : Bytes) {unit : Bytes}
    → shortest_from left i s ≡ some unit
    → (k : ℕ) × (s ≡ repeat k unit)
unfolding shortest_from
shortest_from-repeat zero i s e = absurd (cc)
shortest_from-repeat (suc left) i s {unit} e = elim (Bool-cases (is_unit s i)) [
  | inl found ↦
      let same : take i s ≡ unit = some-injective _ _ (rw found at e) in
      let (k, copies) =
        is_repeated-repeat (length s) (take i s) (drop i s) (ground (arith, found)) in
      subst (λ u. (n : ℕ) × (s ≡ repeat n u)) same
        (suc k, sym (take-drop i s) ∙ ap (◌++◌ (take i s)) copies)
  | inr other ↦ shortest_from-repeat left (suc i) s (rw other at e)
]

-- The detector of whole repetitions returns a unit of which the text is made.
pub find_shortest_repeating_substring-repeat :
    (s : Bytes) {unit : Bytes}
    → find_shortest_repeating_substring s ≡ some unit
    → (k : ℕ) × (s ≡ repeat k unit)
unfolding find_shortest_repeating_substring
find_shortest_repeating_substring-repeat s e = shortest_from-repeat (length s / 2) 1 s e

-- A unit before `stop` can be split off.
take-unit_before :
    (s unit : Bytes) (stop : ℕ)
    → is_unit_before s unit stop ≡ true
    → (length unit ≤ stop) × (take stop s ≡ take (stop - length unit) s ++ unit)
take-unit_before s unit stop h =
    let u = length unit in
    let le : u ≤ stop = leb→le u stop (ground (arith, h)) in
    let same = (bytes_eq_iff (unit_before s u stop) unit).0 (ground (arith, h)) in
    let parts : stop ≡ (stop - u) + u = omega arith in
    (le, ap (λ n. take n s) parts ∙ take-add (stop - u) u s ∙ ap (◌++◌ (take (stop - u) s)) same)

-- The counting loop splits off as many copies as it counts.
abbrev pub Splits : Bytes → Bytes → ℕ → ℕ → ℕ × ℕ → Type 0
Splits s unit stop count (end, total) =
    (k : ℕ) × (total ≡ count + k)
    × (stop ≡ end + k * length unit)
    × (take stop s ≡ take end s ++ repeat k unit)

repeat-snoc : (k : ℕ) (unit : Bytes) → repeat k unit ++ unit ≡ unit ++ repeat k unit
repeat-snoc zero unit = sym (append-nil unit)
repeat-snoc (suc k) unit =
    append_assoc unit (repeat k unit) unit ∙ ap (◌++◌ unit) (repeat-snoc k unit)

pub count_back-Splits :
    (fuel : ℕ) (s unit : Bytes) (stop count : ℕ)
    → Splits s unit stop count (count_back fuel s unit stop count)
unfolding count_back
count_back-Splits zero s unit stop count =
    (0, omega arith, omega arith, sym (append-nil (take stop s)))
count_back-Splits (suc fuel) s unit stop count = elim (Bool-cases (is_unit_before s unit stop)) [
  | inr none_left ↦ rw none_left (0, omega arith, omega arith, sym (append-nil (take stop s)))
  | inl there ↦ rw there (
      let back = stop - length unit in
      let (le, cut) = take-unit_before s unit stop there in
      let (k, total, ends, copies) = count_back-Splits fuel s unit back (count + 1) in
      let r = count_back fuel s unit back (count + 1) in
      (
        suc k,
        omega arith,
        omega (arith, ends, le),
        cut
            ∙ ap (λ t. t ++ unit) copies
            ∙ append_assoc (take r.0 s) (repeat k unit) unit
            ∙ ap (◌++◌ (take r.0 s)) (repeat-snoc k unit),
      ))
]
