-- ===== src/Docassembly/RepetitionGuard.antt =====
-- src/docassembly/repetition_guard.cpp. The thresholds, which are `int`, are not negative. The two
-- comparisons of doubles are exact for texts below 2^31 bytes and are written on whole numbers. A
-- std::string_view is the bytes that it shows.
use turbo_ocr.Common.{
  ℕ, zero, suc, ◌+◌, ◌-◌, ◌*◌, ◌/◌, ◌%◌, Bool, true, false, not, ◌&&◌, ◌||◌, Option, none, some,
  List, [], ◌∷◌, ltb, leb, ◌==◌, if◌then◌else◌, is_empty, length, take, drop, Bytes, bytes_eq, trim,
}

-- The loop over the offsets of one unit length: the rest is made of copies of the unit.
unfoldable pub is_repeated : ℕ → Bytes → Bytes → Bool
is_repeated zero unit rest = is_empty rest
is_repeated (suc fuel) unit rest =
    let later = is_repeated fuel unit (drop (length unit) rest) in
    is_empty rest || (bytes_eq (take (length unit) rest) unit && later)

-- One unit length `i`.
abbrev pub is_unit : Bytes → ℕ → Bool
is_unit s i = (length s % i == 0) && is_repeated (length s) (take i s) (drop i s)

-- The loop over `i`, with `left` lengths to go.
unfoldable pub shortest_from : ℕ → ℕ → Bytes → Option Bytes
shortest_from zero i s = none
shortest_from (suc left) i s =
    let later = shortest_from left (suc i) s in if is_unit s i then some (take i s) else later

unfoldable pub find_shortest_repeating_substring : Bytes → Option Bytes
find_shortest_repeating_substring s = shortest_from (length s / 2) 1 s

-- The unit before `stop` of length `i`.
abbrev pub unit_before : Bytes → ℕ → ℕ → Bytes
unit_before s i stop = take i (drop (stop - i) s)

-- `off` is not negative, and the unit stands at it.
abbrev pub is_unit_before : Bytes → Bytes → ℕ → Bool
is_unit_before s unit stop =
    leb (length unit) stop && bytes_eq (unit_before s (length unit) stop) unit

-- The loop over `r`: `repeats` copies of the unit stand before `stop`.
unfoldable pub ends_with : ℕ → Bytes → Bytes → ℕ → Bool
ends_with zero s unit stop = true
ends_with (suc repeats) s unit stop =
    let later = ends_with repeats s unit (stop - length unit) in is_unit_before s unit stop && later

-- The counting loop: `end` when it stops, and `count`.
unfoldable pub count_back : ℕ → Bytes → Bytes → ℕ → ℕ → ℕ × ℕ
count_back zero s unit stop count = (stop, count)
count_back (suc fuel) s unit stop count =
    let later = count_back fuel s unit (stop - length unit) (count + 1) in
    if is_unit_before s unit stop then later else (stop, count)

pub record Suffix : Type 0 where
  pub prefix : Bytes
  pub unit : Bytes
  pub count : ℕ

abbrev pub suffix_of : Bytes → Bytes → ℕ → Suffix
suffix_of s unit count = record {
  prefix = take (length s - count * length unit) s;
  unit = unit;
  count = count;
}

-- The body of the loop over `i`, from the unit on.
abbrev pub suffix_at : Bytes → Bytes → Suffix
suffix_at s unit = suffix_of s unit (count_back (length s) s unit (length s) 0).1

-- The loop over `i`, from `i` down to `min_len` or 1.
unfoldable pub suffix_from : ℕ → Bytes → ℕ → ℕ → Option Suffix
suffix_from zero s min_len min_repeats = none
suffix_from (suc j) s min_len min_repeats =
    let unit = unit_before s (suc j) (length s) in
    let later = suffix_from j s min_len min_repeats in
    if ltb (suc j) min_len
    then none
    else if ends_with min_repeats s unit (length s)
    then some (suffix_at s unit)
    else later

unfoldable pub find_repeating_suffix : Bytes → ℕ → ℕ → Option Suffix
find_repeating_suffix s min_len min_repeats =
    suffix_from (length s / min_repeats) s min_len min_repeats

-- A newline starts another line.
abbrev pub push_byte : ℕ → List Bytes → List Bytes
push_byte c [] = (c ∷ []) ∷ []
push_byte c (line ∷ lines) = (c ∷ line) ∷ lines

abbrev pub split_lines : Bytes → List Bytes
split_lines [] = [] ∷ []
split_lines (c ∷ cs) = let rest = split_lines cs in if c == 10 then [] ∷ rest else push_byte c rest

abbrev pub keep_trimmed : List Bytes → List Bytes
keep_trimmed [] = []
keep_trimmed (line ∷ lines) =
    let rest = keep_trimmed lines in let t = trim line in if is_empty t then rest else t ∷ rest

-- `lines`: the lines that are not blank, trimmed.
unfoldable pub lines_of : Bytes → List Bytes
lines_of content = keep_trimmed (split_lines content)

-- `++counts[l]`: the map afterwards and the value.
abbrev pub count_at : Bytes → List (Bytes × ℕ) → ℕ
count_at l [] = 0
count_at l ((k, c) ∷ rest) = if bytes_eq k l then c else count_at l rest

abbrev pub increment : Bytes → List (Bytes × ℕ) → List (Bytes × ℕ)
increment l counts = (l, count_at l counts + 1) ∷ counts

-- The loop over the lines: the best line so far, and its count.
unfoldable pub best_line : List Bytes → List (Bytes × ℕ) → Bytes → ℕ → Bytes × ℕ
best_line [] counts best best_count = (best, best_count)
best_line (l ∷ ls) counts best best_count =
    let c = count_at l counts + 1 in
    let better = ltb best_count c in
    best_line ls (increment l counts) (if better then l else best)
      (if better then c else best_count)

-- kMaxSingleLineScan
abbrev pub max_single_line_scan : ℕ
max_single_line_scan = 65536

abbrev pub has_newline : Bytes → Bool
has_newline [] = false
has_newline (c ∷ cs) = c == 10 || has_newline cs

abbrev pub is_scannable : Bytes → Bool
is_scannable s = not (has_newline s) && leb (length s) max_single_line_scan

-- Priority 1. `none`: nothing is cut.
abbrev pub cut_suffix : Bytes → Option Suffix → Option Bytes
cut_suffix s none = none
cut_suffix s (some m) =
    if ltb (length s) (2 * (length m.unit * m.count)) then some m.prefix else none

unfoldable pub phrase_pass : Bytes → Option Bytes
phrase_pass s =
    if is_scannable s && ltb 100 (length s)
    then cut_suffix s (find_repeating_suffix s 8 5)
    else none

-- Priority 2.
abbrev pub cut_unit : ℕ → Bytes → Option Bytes → Option Bytes
cut_unit char_threshold s none = none
cut_unit char_threshold s (some unit) =
    if leb char_threshold (length s / length unit) then some unit else none

unfoldable pub char_pass : ℕ → ℕ → Bytes → Option Bytes
char_pass char_threshold min_len s =
    if is_scannable s && ltb min_len (length s)
    then cut_unit char_threshold s (find_shortest_repeating_substring s)
    else none

-- Priority 3, on the trimmed lines.
abbrev pub cut_lines : ℕ → ℕ → Bytes × ℕ → Option Bytes
cut_lines line_threshold total (best, best_count) =
    if (ltb 0 best_count && leb line_threshold best_count) && leb (4 * total) (5 * best_count)
    then some best
    else none

unfoldable pub line_pass : ℕ → List Bytes → Option Bytes
line_pass line_threshold lines =
    if is_empty lines || ltb (length lines) line_threshold
    then none
    else cut_lines line_threshold (length lines) (best_line lines [] [] 0)

abbrev pub first_of : Option Bytes → Bytes → Bytes
first_of (some cut) content = cut
first_of none content = content

abbrev pub or_pass : Option Bytes → Option Bytes → Option Bytes
or_pass (some cut) later = some cut
or_pass none later = later

abbrev pub guard_stripped : ℕ → ℕ → ℕ → Bytes → Bytes → Bytes
guard_stripped line_threshold char_threshold min_len content stripped =
    if is_empty stripped
    then content
    else first_of
        (or_pass (phrase_pass stripped) (
          or_pass (char_pass char_threshold min_len stripped)
            (line_pass line_threshold (lines_of content))))
        content

unfoldable pub truncate_repetitive_content : Bytes → ℕ → ℕ → ℕ → ℕ → Bytes
truncate_repetitive_content content line_threshold char_threshold min_len min_count =
    if ltb (length content) min_count
    then content
    else guard_stripped line_threshold char_threshold min_len content (trim content)
