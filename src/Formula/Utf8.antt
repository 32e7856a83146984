-- ===== src/Formula/Utf8.antt =====
-- The shape of UTF-8, as a reader of it sees it; trimming keeps it.
use mathlib.Core.List.{reverse, reverse-cons, reverse-reverse}
use turbo_ocr.Common.{
  ℕ, zero, suc, ◌<◌, ◌≡◌, refl, sym, subst, ◌∙◌, Bool, true, false, ◌&&◌, Option, none, some, [],
  ◌∷◌, ◌++◌, ltb, leb, ◌==◌, if◌then◌else◌, Bytes, is_space, trim, trim_left, Bool-cases,
  Option-cases, inl, inr, arith,
}

-- A reader of UTF-8 that waits for `left` more bytes of a sequence takes a byte, or refuses it.
unfoldable pub take_byte : ℕ → ℕ → Option ℕ
take_byte zero c =
    if ltb c 128
    then some 0
    else if ltb c 192
    then none
    else if ltb c 224
    then some 1
    else if ltb c 240
    then some 2
    else if ltb c 248
    then some 3
    else none
take_byte (suc left) c = if leb 128 c && ltb c 192 then some left else none

-- It reads the text to the end, and no sequence is left open.
unfoldable pub reads_utf8 : ℕ → Bytes → Bool
reads_utf8 left [] = left == 0
reads_utf8 left (c ∷ cs) = elim (take_byte left c) [ none ↦ false | some more ↦ reads_utf8 more cs ]

-- A text is made of lead bytes, each with its continuation bytes. Overlong forms and surrogates pass.
abbrev pub IsUtf8 : Bytes → Type 0
IsUtf8 s = reads_utf8 0 s ≡ true

pub reads_utf8-step :
    (left c more : ℕ) (cs : Bytes)
    → take_byte left c ≡ some more
    → reads_utf8 left (c ∷ cs) ≡ reads_utf8 more cs
unfolding reads_utf8
reads_utf8-step left c more cs e = rw (e, reads_utf8) refl

reads_utf8-refused :
    (left c : ℕ) (cs : Bytes) → take_byte left c ≡ none → reads_utf8 left (c ∷ cs) ≡ false
unfolding reads_utf8
reads_utf8-refused left c cs e = rw (e, reads_utf8) refl

-- What is read begins with a byte that the reader takes.
pub reads_utf8-taken :
    (left c : ℕ) (cs : Bytes)
    → reads_utf8 left (c ∷ cs) ≡ true
    → (more : ℕ) × (take_byte left c ≡ some more) × (reads_utf8 more cs ≡ true)
reads_utf8-taken left c cs h = elim (Option-cases (take_byte left c)) [
  | inl refused ↦ absurd (cc (h, reads_utf8-refused left c cs refused))
  | inr (more, taken) ↦ (more, taken, sym (reads_utf8-step left c more cs taken) ∙ h)
]

take_byte-ascii : (c : ℕ) → c < 128 → take_byte 0 c ≡ some 0
unfolding take_byte
take_byte-ascii c h = ground arith

pub reads_utf8-ascii : (c : ℕ) (cs : Bytes) → c < 128 → reads_utf8 0 (c ∷ cs) ≡ reads_utf8 0 cs
unfolding reads_utf8
reads_utf8-ascii c cs h = rw (take_byte-ascii c h, reads_utf8) refl

-- A byte below 128 is nothing but a character of its own.
take_byte-ascii_only :
    (left c more : ℕ) → c < 128 → take_byte left c ≡ some more → (left ≡ 0) × (more ≡ 0)
unfolding take_byte
take_byte-ascii_only zero c more h e = ground arith
take_byte-ascii_only (suc left) c more h e = ground arith

pub reads_utf8-ascii_only :
    (left c : ℕ) (cs : Bytes)
    → c < 128
    → reads_utf8 left (c ∷ cs) ≡ true
    → (left ≡ 0) × (reads_utf8 0 cs ≡ true)
reads_utf8-ascii_only left c cs h e =
    let (more, taken, later) = reads_utf8-taken left c cs e in
    let (start, whole) = take_byte-ascii_only left c more h taken in
    (start, subst (λ n. reads_utf8 n cs ≡ true) whole later)

-- A last byte below 128 can be cut off.
reads_utf8-snoc :
    (left : ℕ) (cs : Bytes) (c : ℕ)
    → c < 128
    → reads_utf8 left (cs ++ c ∷ []) ≡ true
    → reads_utf8 left cs ≡ true
unfolding reads_utf8
reads_utf8-snoc left [] c h e = (rw (reads_utf8-ascii_only left c [] h e).0 refl)
reads_utf8-snoc left (d ∷ cs) c h e =
    let (more, taken, later) = reads_utf8-taken left d (cs ++ c ∷ []) e in
    reads_utf8-step left d more cs taken ∙ reads_utf8-snoc more cs c h later

space-ascii : (c : ℕ) → is_space c ≡ true → c < 128
unfolding is_space
space-ascii c h = ground arith

IsUtf8-trim_left : (s : Bytes) → IsUtf8 s → IsUtf8 (trim_left s)
unfolding trim_left
IsUtf8-trim_left [] h = h
IsUtf8-trim_left (c ∷ cs) h = elim (Bool-cases (is_space c)) [
  | inl e ↦ rw e (IsUtf8-trim_left cs (reads_utf8-ascii_only 0 c cs (space-ascii c e) h).1)
  | inr e ↦ rw e h
]

IsUtf8-trim_right : (s : Bytes) → IsUtf8 (reverse s) → IsUtf8 (reverse (trim_left s))
unfolding trim_left
IsUtf8-trim_right [] h = h
IsUtf8-trim_right (c ∷ cs) h = elim (Bool-cases (is_space c)) [
  | inl e ↦ rw e (
      IsUtf8-trim_right cs
        (reads_utf8-snoc 0 (reverse cs) c (space-ascii c e) (subst IsUtf8 (reverse-cons c cs) h)))
  | inr e ↦ rw e h
]

pub IsUtf8-trim : (s : Bytes) → IsUtf8 s → IsUtf8 (trim s)
unfolding trim
IsUtf8-trim s h =
    IsUtf8-trim_right (reverse (trim_left s))
      (subst IsUtf8 (sym (reverse-reverse (trim_left s))) (IsUtf8-trim_left s h))
