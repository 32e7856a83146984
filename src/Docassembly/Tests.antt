-- ===== src/Docassembly/Tests.antt =====
-- Runaway texts, and the theorem about cutting them at one.
use turbo_ocr.Common.{◌≡◌, refl, some, Bytes, codes, bytes_eq, trim, trim_left, is_space}
use turbo_ocr.Docassembly.RepetitionGuard.{
  is_repeated, shortest_from, find_shortest_repeating_substring, ends_with, count_back, suffix_from,
  find_repeating_suffix, lines_of, best_line, phrase_pass, char_pass, line_pass,
  truncate_repetitive_content,
}
use turbo_ocr.Docassembly.RepetitionLaws.{Truncated, truncate_repetitive_content-Truncated}

abbrev stutter : Bytes
stutter = codes " abababababababababababab"

abbrev rows : Bytes
rows = codes "x\ny\nx \n\nx\nx\n"

cut_stutter : truncate_repetitive_content stutter 10 10 10 4 ≡ codes "ab"
unfolding truncate_repetitive_content phrase_pass char_pass find_shortest_repeating_substring
    shortest_from is_repeated trim trim_left is_space bytes_eq
cut_stutter = refl

cut_rows : truncate_repetitive_content rows 4 10 10 4 ≡ codes "x"
unfolding truncate_repetitive_content phrase_pass char_pass line_pass lines_of best_line trim
    trim_left is_space bytes_eq
cut_rows = refl

cut_tail :
    find_repeating_suffix (codes "start abcabcabcabcabc") 3 5
    ≡ some (record { prefix = codes "start "; unit = codes "abc"; count = 5 })
unfolding find_repeating_suffix suffix_from ends_with count_back bytes_eq
cut_tail = refl

truncate_repetitive_content-Truncated_example :
    Truncated stutter 10 10 (truncate_repetitive_content stutter 10 10 10 4)
truncate_repetitive_content-Truncated_example =
    truncate_repetitive_content-Truncated stutter 10 10 10 4
