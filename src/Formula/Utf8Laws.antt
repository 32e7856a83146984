-- ===== src/Formula/Utf8Laws.antt =====
-- Which steps of formula_tokenizer.cpp give a text the shape of UTF-8 or keep it.
use turbo_ocr.Common.{
  ℕ, zero, suc, ◌-◌, ◌<◌, ◌≡◌, refl, subst, ◌∙◌, true, some, List, [], ◌∷◌, ◌++◌, ◌==◌, ==_iff,
  length, drop, Bytes, All, Bool-cases, ◌⊎◌, inl, inr, arith,
}
use turbo_ocr.Serialization.Escape.{continues, replacement}
use turbo_ocr.TableHtml.Texts.{starts_with}
use turbo_ocr.Formula.ByteLevel.{
  sequence_len, is_valid, sanitize_from, utf8_sanitize, marker_len, markers, skip_here, strip_from,
  strip_frame_markers,
}
use turbo_ocr.Formula.Utf8.{
  take_byte, reads_utf8, IsUtf8, reads_utf8-step, reads_utf8-taken, reads_utf8-ascii,
  reads_utf8-ascii_only,
}

-- A lead byte opens a sequence of the length that the code gives it.
pub take_byte-lead :
    (c : ℕ) (cs : Bytes)
    → is_valid (sequence_len c) cs ≡ true
    → take_byte 0 c ≡ some (sequence_len c - 1)
unfolding take_byte sequence_len is_valid
take_byte-lead c cs h = ground arith

pub valid-continues :
    (len : ℕ) (cs : Bytes) → is_valid len cs ≡ true → continues (len - 1) cs ≡ true
unfolding is_valid
valid-continues len cs h = ground arith

pub continues-take_byte :
    (n c : ℕ) (cs : Bytes)
    → continues (suc n) (c ∷ cs) ≡ true
    → (take_byte (suc n) c ≡ some n) × (continues n cs ≡ true)
unfolding continues take_byte
continues-take_byte n c cs h = (ground arith, ground arith)

pub reads_utf8-replacement : (cs : Bytes) → reads_utf8 0 (replacement ++ cs) ≡ reads_utf8 0 cs
unfolding reads_utf8 take_byte
reads_utf8-replacement cs = refl

reads_utf8-sanitize_from :
    (copied : ℕ) (s : Bytes)
    → continues copied s ≡ true
    → reads_utf8 copied (sanitize_from copied s) ≡ true
unfolding sanitize_from
reads_utf8-sanitize_from zero [] h = unfold reads_utf8 in refl
reads_utf8-sanitize_from (suc copied) [] h = absurd (unfold continues in cc h)
reads_utf8-sanitize_from (suc copied) (c ∷ cs) h =
    let (here, there) = continues-take_byte copied c cs h in
    reads_utf8-step (suc copied) c copied (sanitize_from copied cs) here
    ∙ reads_utf8-sanitize_from copied cs there
reads_utf8-sanitize_from zero (c ∷ cs) h = elim (Bool-cases (is_valid (sequence_len c) cs)) [
  | inl e ↦
      rw (e, sanitize_from)
        (reads_utf8-step 0 c (sequence_len c - 1) (sanitize_from (sequence_len c - 1) cs)
            (take_byte-lead c cs e)
          ∙ reads_utf8-sanitize_from (sequence_len c - 1) cs
              (valid-continues (sequence_len c) cs e))
  | inr e ↦
      rw (e, sanitize_from)
        (reads_utf8-replacement (sanitize_from zero cs)
          ∙ reads_utf8-sanitize_from zero cs (unfold continues in refl))
]

pub utf8_sanitize-IsUtf8 : (s : Bytes) → IsUtf8 (utf8_sanitize s)
unfolding utf8_sanitize
utf8_sanitize-IsUtf8 s = reads_utf8-sanitize_from zero s (unfold continues in refl)

abbrev IsAscii : ℕ → Type 0
IsAscii c = c < 128

IsUtf8-marker :
    (m s : Bytes) → All IsAscii m → starts_with m s ≡ true → IsUtf8 s → IsUtf8 (drop (length m) s)
unfolding starts_with
IsUtf8-marker [] s ascii here h = h
IsUtf8-marker (p ∷ m) [] ascii here h = absurd (cc here)
IsUtf8-marker (p ∷ m) (c ∷ s) (low, ascii) here h =
    let same = (==_iff p c).0 (ground arith) in
    IsUtf8-marker m s ascii (ground arith) (reads_utf8-ascii_only 0 c s (omega arith) h).1

IsUtf8-marker_len :
    (ms : List Bytes) (s : Bytes)
    → All (All IsAscii) ms
    → IsUtf8 s
    → IsUtf8 (drop (marker_len ms s) s)
unfolding marker_len
IsUtf8-marker_len [] s ascii h = h
IsUtf8-marker_len (m ∷ ms) s (first, others) h = elim (Bool-cases (starts_with m s)) [
  | inl here ↦ rw here (IsUtf8-marker m s first here h)
  | inr other ↦ rw other (IsUtf8-marker_len ms s others h)
]

markers-IsAscii : All (All IsAscii) markers
markers-IsAscii = ground arith

ℕ-cases : (n : ℕ) → (n ≡ 0) ⊎ ((k : ℕ) × (n ≡ suc k))
ℕ-cases zero = inl refl
ℕ-cases (suc k) = inr (k, refl)

-- Only a bracket begins a marker; what stands behind the marker is still UTF-8.
IsUtf8-skip_here :
    (left c k : ℕ) (cs : Bytes)
    → skip_here c cs ≡ suc k
    → reads_utf8 left (c ∷ cs) ≡ true
    → reads_utf8 left (drop k cs) ≡ true
IsUtf8-skip_here left c k cs e h = elim (Bool-cases (c == b'[')) [
  | inr other ↦ absurd (ground (arith, e, other))
  | inl bracket ↦
      let same = (==_iff c b'[').0 bracket in
      let (start, later) = reads_utf8-ascii_only left c cs (omega arith) h in
      let len : marker_len markers (c ∷ cs) ≡ suc k = ground (arith, e, bracket) in
      let whole =
        IsUtf8-marker_len markers (c ∷ cs) markers-IsAscii
          (reads_utf8-ascii c cs (omega arith) ∙ later) in
      rw start (subst (λ n. IsUtf8 (drop n (c ∷ cs))) len whole)
]

reads_utf8-strip_from :
    (skip left : ℕ) (s : Bytes)
    → reads_utf8 left (drop skip s) ≡ true
    → reads_utf8 left (strip_from skip s) ≡ true
unfolding strip_from
reads_utf8-strip_from zero left [] h = h
reads_utf8-strip_from (suc skip) left [] h = h
reads_utf8-strip_from (suc skip) left (c ∷ cs) h = reads_utf8-strip_from skip left cs h
reads_utf8-strip_from zero left (c ∷ cs) h = elim (ℕ-cases (skip_here c cs)) [
  | inl e ↦
      let (more, taken, later) = reads_utf8-taken left c cs h in
      rw (e, strip_from)
        (reads_utf8-step left c more (strip_from zero cs) taken
          ∙ reads_utf8-strip_from zero more cs later)
  | inr (k, e) ↦
      rw (e, strip_from) (reads_utf8-strip_from k left cs (IsUtf8-skip_here left c k cs e h))
]

pub IsUtf8-strip_frame_markers : (s : Bytes) → IsUtf8 s → IsUtf8 (strip_frame_markers s)
unfolding strip_frame_markers
IsUtf8-strip_frame_markers s h = reads_utf8-strip_from zero 0 s h
