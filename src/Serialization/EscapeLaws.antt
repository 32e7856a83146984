-- ===== src/Serialization/EscapeLaws.antt =====
-- What a JSON reader makes of an escaped string.
use turbo_ocr.Common.{
  ℕ, zero, suc, ◌-◌, ◌≤◌, ◌<◌, ◌≡◌, refl, ap, sym, ◌∙◌, true, false, some, [], ◌∷◌, ◌++◌,
  append_assoc, ltb, Bytes, All, Bool-cases, inl, inr, arith, ltb→ge, ltb→lt,
}
use turbo_ocr.Serialization.Escape.{
  escape_ascii, utf8_len, continues, is_sequence, replacement, escape_from, append_escaped_string,
}
use turbo_ocr.Formula.ByteLevel.{is_valid, sequence_len, sanitize_from, utf8_sanitize}
use turbo_ocr.Formula.Utf8.{reads_utf8, IsUtf8, reads_utf8-ascii, reads_utf8-step}
use turbo_ocr.Formula.Utf8Laws.{
  take_byte-lead, reads_utf8-replacement, valid-continues, continues-take_byte,
}
use turbo_ocr.Serialization.JsonString.{plain, reads, take_char, prepend, read_string}

read_string-escape_ascii :
    (c : ℕ) (cs : Bytes)
    → c < 128
    → read_string plain (escape_ascii c ++ cs) ≡ prepend c (read_string plain cs)
unfolding read_string take_char escape_ascii
read_string-escape_ascii c cs h = ground arith

-- A byte from 128 on is a character, or a part of one.
read_string-high :
    (c : ℕ) (cs : Bytes) → 128 ≤ c → read_string plain (c ∷ cs) ≡ prepend c (read_string plain cs)
unfolding read_string
read_string-high c cs h =
    let same : take_char plain c ≡ reads c = unfold take_char in ground arith in
    rw (same, read_string) refl

abbrev Content : Bytes → Bytes → Bytes → Type 0
Content written rest content = read_string plain (written ++ 34 ∷ rest) ≡ some (content, rest)

continues-head :
    (n c : ℕ) (cs : Bytes) → continues (suc n) (c ∷ cs) ≡ true → (128 ≤ c) × (continues n cs ≡ true)
unfolding continues
continues-head n c cs h = (ground arith, ground arith)

-- From 128 on the two tests of a sequence are one.
sequence_same :
    (c : ℕ) (cs : Bytes)
    → 128 ≤ c
    → (sequence_len c ≡ utf8_len c) × (is_valid (sequence_len c) cs ≡ is_sequence (utf8_len c) cs)
unfolding sequence_len utf8_len is_valid is_sequence
sequence_same c cs h = (ground arith, ground arith)

read_string-replacement :
    (cs : Bytes)
    → read_string plain (replacement ++ cs)
      ≡ prepend 239 (prepend 191 (prepend 189 (read_string plain cs)))
unfolding read_string take_char
read_string-replacement cs = refl

sanitize_from-copied :
    (copied c : ℕ) (cs : Bytes) → sanitize_from (suc copied) (c ∷ cs) ≡ c ∷ sanitize_from copied cs
unfolding sanitize_from
sanitize_from-copied copied c cs = refl

sanitize_from-valid :
    (c : ℕ) (cs : Bytes)
    → is_valid (sequence_len c) cs ≡ true
    → sanitize_from zero (c ∷ cs) ≡ c ∷ sanitize_from (sequence_len c - 1) cs
unfolding sanitize_from
sanitize_from-valid c cs h = rw (h, sanitize_from) refl

sanitize_from-broken :
    (c : ℕ) (cs : Bytes)
    → is_valid (sequence_len c) cs ≡ false
    → sanitize_from zero (c ∷ cs) ≡ replacement ++ sanitize_from zero cs
unfolding sanitize_from
sanitize_from-broken c cs h = rw (h, sanitize_from) refl

sanitize_from-ascii :
    (c : ℕ) (cs : Bytes) → c < 128 → sanitize_from zero (c ∷ cs) ≡ c ∷ sanitize_from zero cs
sanitize_from-ascii c cs h =
    let one : sequence_len c ≡ 1 = unfold sequence_len in ground arith in
    let valid : is_valid (sequence_len c) cs ≡ true = rw one (unfold is_valid continues in refl) in
    sanitize_from-valid c cs valid ∙ ap (λ n. c ∷ sanitize_from (n - 1) cs) one

-- The reader gets the repaired text back, byte for byte.
read_string-escape_from :
    (copied : ℕ) (s rest : Bytes)
    → continues copied s ≡ true
    → Content (escape_from copied s) rest (sanitize_from copied s)
unfolding escape_from
read_string-escape_from zero [] rest h = unfold read_string take_char sanitize_from in refl
read_string-escape_from (suc copied) [] rest h = absurd (unfold continues in cc h)
read_string-escape_from (suc copied) (c ∷ cs) rest h =
    let (high, more) = continues-head copied c cs h in
    read_string-high c (escape_from copied cs ++ 34 ∷ rest) high
    ∙ ap (prepend c) (read_string-escape_from copied cs rest more)
    ∙ ap (λ t. some (t, rest)) (sym (sanitize_from-copied copied c cs))
read_string-escape_from zero (c ∷ cs) rest h = elim (Bool-cases (ltb c 128)) [
  | inl low ↦
      rw (low, escape_from)
        (ap (read_string plain) (append_assoc (escape_ascii c) (escape_from zero cs) (34 ∷ rest))
          ∙ read_string-escape_ascii c (escape_from zero cs ++ 34 ∷ rest) (ltb→lt c 128 low)
          ∙ ap (prepend c) (read_string-escape_from zero cs rest (unfold continues in refl))
          ∙ ap (λ t. some (t, rest)) (sym (sanitize_from-ascii c cs (ltb→lt c 128 low))))
  | inr high ↦
      let (len, test) = sequence_same c cs (ltb→ge c 128 high) in
      elim (Bool-cases (is_sequence (utf8_len c) cs)) [
        | inl whole ↦
            let valid = test ∙ whole in
            rw (high, whole, escape_from)
              (read_string-high c (escape_from (utf8_len c - 1) cs ++ 34 ∷ rest) (ltb→ge c 128 high)
                ∙ ap (prepend c) (
                    read_string-escape_from (utf8_len c - 1) cs rest (
                      ap (λ n. continues (n - 1) cs) (sym len)
                      ∙ valid-continues (sequence_len c) cs valid))
                ∙ ap (λ n. some (c ∷ sanitize_from (n - 1) cs, rest)) (sym len)
                ∙ ap (λ t. some (t, rest)) (sym (sanitize_from-valid c cs valid)))
        | inr broken ↦
            rw (high, broken, escape_from)
              (read_string-replacement (escape_from zero cs ++ 34 ∷ rest)
                ∙ ap (λ o. prepend 239 (prepend 191 (prepend 189 o)))
                    (read_string-escape_from zero cs rest (unfold continues in refl))
                ∙ ap (λ t. some (t, rest)) (sym (sanitize_from-broken c cs (test ∙ broken))))
      ]
]

abbrev IsAscii : ℕ → Type 0
IsAscii c = c < 128

reads_utf8-IsAscii : (xs cs : Bytes) → All IsAscii xs → reads_utf8 0 (xs ++ cs) ≡ reads_utf8 0 cs
reads_utf8-IsAscii [] cs h = refl
reads_utf8-IsAscii (x ∷ xs) cs (low, h) =
    reads_utf8-ascii x (xs ++ cs) low ∙ reads_utf8-IsAscii xs cs h

escape_ascii-IsAscii : (c : ℕ) → c < 128 → All IsAscii (escape_ascii c)
unfolding escape_ascii
escape_ascii-IsAscii c h = ground arith

reads_utf8-escape_from :
    (copied : ℕ) (s : Bytes)
    → continues copied s ≡ true
    → reads_utf8 copied (escape_from copied s) ≡ true
unfolding escape_from
reads_utf8-escape_from zero [] h = unfold reads_utf8 in refl
reads_utf8-escape_from (suc copied) [] h = absurd (unfold continues in cc h)
reads_utf8-escape_from (suc copied) (c ∷ cs) h =
    let (here, there) = continues-take_byte copied c cs h in
    reads_utf8-step (suc copied) c copied (escape_from copied cs) here
    ∙ reads_utf8-escape_from copied cs there
reads_utf8-escape_from zero (c ∷ cs) h = elim (Bool-cases (ltb c 128)) [
  | inl low ↦
      rw (low, escape_from)
        (reads_utf8-IsAscii (escape_ascii c) (escape_from zero cs)
            (escape_ascii-IsAscii c (ltb→lt c 128 low))
          ∙ reads_utf8-escape_from zero cs (unfold continues in refl))
  | inr high ↦
      let (len, test) = sequence_same c cs (ltb→ge c 128 high) in
      elim (Bool-cases (is_sequence (utf8_len c) cs)) [
        | inl whole ↦
            let valid = test ∙ whole in
            rw (high, whole, escape_from)
              (reads_utf8-step 0 c (utf8_len c - 1) (escape_from (utf8_len c - 1) cs)
                  (take_byte-lead c cs valid ∙ ap (λ n. some (n - 1)) len)
                ∙ reads_utf8-escape_from (utf8_len c - 1) cs (
                    ap (λ n. continues (n - 1) cs) (sym len)
                    ∙ valid-continues (sequence_len c) cs valid))
        | inr broken ↦
            rw (high, broken, escape_from)
              (reads_utf8-replacement (escape_from zero cs)
                ∙ reads_utf8-escape_from zero cs (unfold continues in refl))
      ]
]

-- Whatever bytes a string holds: the code appends to the output a text of the shape of UTF-8 which, with
-- the caller's closing quote behind it, a reader of JSON string literals accepts. It gets back the string
-- with U+FFFD for each byte that is in no UTF-8 sequence, and goes on behind that quote. Overlong forms
-- and surrogates have the shape of UTF-8 too.
pub append_escaped_string-reads :
    (j s rest : Bytes)
    → (added : Bytes) × (append_escaped_string j s ≡ j ++ added)
      × IsUtf8 added
      × (read_string plain (added ++ 34 ∷ rest) ≡ some (utf8_sanitize s, rest))
unfolding append_escaped_string utf8_sanitize
append_escaped_string-reads j s rest = (
  escape_from zero s,
  refl,
  reads_utf8-escape_from zero s (unfold continues in refl),
  read_string-escape_from zero s rest (unfold continues in refl),
)
