-- ===== src/TableHtml/SanitizeLaws.antt =====
-- Sanitized markup holds no tag but the structural ones of a table.
use turbo_ocr.Common.{
  ℕ, zero, suc, ◌≤◌, ◌<◌, ◌≡◌, refl, subst, Bool, true, false, ◌||◌, Option, none, some, List, [],
  ◌∷◌, ◌++◌, arith, ◌==◌, if◌then◌else◌, is_empty, length, Bytes, codes, bytes_eq, All, Bool-cases,
  Option-cases, inl, inr,
}
use mathlib.Core.Option.{some-injective}
use turbo_ocr.TableHtml.Texts.{ascii_lower, is_alnum, starts_with, split_first, find_lower}
use turbo_ocr.TableHtml.Sanitize.{
  allowed_tags, is_listed, is_allowed_table_tag, kept_attrs, name_of, attrs_of, find_attr, value_of,
  keep_alnum, emit_attr, emit_attrs, is_closing, body_of, write_tag, sanitize_tag, is_script,
  is_style, after_close, after_element, at_tag, sanitize_round, sanitize_loop, sanitize_table_html,
}

-- Attributes of the four kept names, with letters and digits for values.
pub data SafeAttrs : Bytes → Type 0 where
  no_attr : SafeAttrs []
  attr :
      (name value rest : Bytes)
      → is_listed kept_attrs name ≡ true
      → All (λ c. is_alnum c ≡ true) value
      → SafeAttrs rest
      → SafeAttrs ((32 ∷ name ++ (61 ∷ 34 ∷ value ++ (34 ∷ []))) ++ rest)

-- Text without '<', and the structural tags of tables; an opening tag may have safe attributes.
pub data SafeHtml : Bytes → Type 0 where
  no_html : SafeHtml []
  byte : (c : ℕ) (rest : Bytes) → (c == 60) ≡ false → SafeHtml rest → SafeHtml (c ∷ rest)
  opening :
      (name attrs rest : Bytes)
      → is_listed allowed_tags name ≡ true
      → SafeAttrs attrs
      → SafeHtml rest
      → SafeHtml (60 ∷ (name ++ (attrs ++ 62 ∷ [])) ++ rest)
  closing :
      (name rest : Bytes)
      → is_listed allowed_tags name ≡ true
      → SafeHtml rest
      → SafeHtml (60 ∷ (47 ∷ name ++ 62 ∷ []) ++ rest)

-- The rounds of the loop, without fuel.
pub data Sanitizes : Bytes → Bytes → Type 0 where
  finished : Sanitizes [] []
  round :
      (c : ℕ) (rest : Bytes) {out : Bytes}
      → Sanitizes (sanitize_round c rest).1 out
      → Sanitizes (c ∷ rest) ((sanitize_round c rest).0 ++ out)

split_first-length :
    (c : ℕ) (s : Bytes) {p : Bytes × Bytes} → split_first c s ≡ some p → length p.1 < length s
unfolding split_first
split_first-length c [] e = absurd (cc)
split_first-length c (d ∷ ds) {p} e = elim (Bool-cases (d == c)) [
  | inl found ↦
      subst (λ q. length q.1 < length (d ∷ ds)) (some-injective _ _ (rw found at e)) (omega arith)
  | inr other ↦ elim (Option-cases (split_first c ds)) [
    | inl nowhere ↦ let bad = rw (other, nowhere) at e in absurd (cc)
    | inr (q, later) ↦
        subst (λ r. length r.1 < length (d ∷ ds)) (some-injective _ _ (rw (other, later) at e))
          (omega (arith, split_first-length c ds later))
  ]
]

find_lower-length :
    (needle s : Bytes) {t : Bytes} → find_lower needle s ≡ some t → length t ≤ length s
unfolding find_lower
find_lower-length needle [] {t} e = elim (Bool-cases (starts_with needle [])) [
  | inl found ↦ subst (λ q. length q ≤ 0) (some-injective _ _ (rw found at e)) (omega arith)
  | inr other ↦ let bad = rw other at e in absurd (cc)
]
find_lower-length needle (c ∷ cs) {t} e =
    elim (Bool-cases (starts_with needle (ascii_lower (c ∷ cs)))) [
      | inl found ↦
          subst (λ q. length q ≤ length (c ∷ cs)) (some-injective _ _ (rw found at e)) (omega arith)
      | inr other ↦ omega (arith, find_lower-length needle cs (rw other at e))
    ]

-- What the loop goes on with is shorter.
after_close-length :
    (s : Bytes) (o : Option (Bytes × Bytes))
    → split_first 62 s ≡ o
    → length (after_close o) < suc (length s)
after_close-length s none e = omega arith
after_close-length s (some p) e = omega (arith, split_first-length 62 s e)

after_element-length :
    (needle s : Bytes) (o : Option Bytes)
    → find_lower needle s ≡ o
    → length (after_element o) ≤ length s
after_element-length needle s none e = omega arith
after_element-length needle s (some t) e =
    omega (arith, after_close-length t (split_first 62 t) refl, find_lower-length needle s e)

at_tag-length :
    (rest : Bytes) (o : Option (Bytes × Bytes))
    → split_first 62 rest ≡ o
    → length (at_tag rest o).1 ≤ length rest
at_tag-length rest none e = omega arith
at_tag-length rest (some (inner, after)) e =
    let needle = if is_script inner then codes "</script" else codes "</style" in
    let shorter = split_first-length 62 rest e in
    elim (Bool-cases (is_script inner || is_style inner)) [
      | inl element ↦ rw element (
          omega (
            arith,
            after_element-length needle (62 ∷ after) (find_lower needle (62 ∷ after)) refl,
            shorter,
          ))
      | inr tag ↦ rw tag (omega (arith, shorter))
    ]

sanitize_round-length : (c : ℕ) (rest : Bytes) → length (sanitize_round c rest).1 ≤ length rest
sanitize_round-length c rest = elim (Bool-cases (c == 60)) [
  | inl e ↦ rw e (at_tag-length rest (split_first 62 rest) refl)
  | inr e ↦ rw e (omega arith)
]

-- Fuel for each byte is enough.
sanitize_loop-Sanitizes :
    (fuel : ℕ) (s : Bytes) → length s ≤ fuel → Sanitizes s (sanitize_loop fuel s)
unfolding sanitize_loop
sanitize_loop-Sanitizes fuel [] h = finished
sanitize_loop-Sanitizes zero (c ∷ rest) h = absurd (omega arith)
sanitize_loop-Sanitizes (suc fuel) (c ∷ rest) h = round c rest (
    sanitize_loop-Sanitizes fuel (sanitize_round c rest).1
      (omega (arith, sanitize_round-length c rest)))

keep_alnum-All : (s : Bytes) → All (λ c. is_alnum c ≡ true) (keep_alnum s)
unfolding keep_alnum
keep_alnum-All [] = tt
keep_alnum-All (c ∷ cs) = elim (Bool-cases (is_alnum c)) [
  | inl e ↦ rw e (e, keep_alnum-All cs)
  | inr e ↦ rw e (keep_alnum-All cs)
]

emit_attr-SafeAttrs :
    (name : Bytes) (o : Option Bytes) (rest : Bytes)
    → is_listed kept_attrs name ≡ true
    → SafeAttrs rest
    → SafeAttrs (emit_attr name o ++ rest)
emit_attr-SafeAttrs name none rest h s = s
emit_attr-SafeAttrs name (some r) rest h s =
    let clean = keep_alnum (value_of r) in
    elim (Bool-cases (is_empty clean)) [
      | inl e ↦ rw e s
      | inr e ↦ rw e (attr name clean rest h (keep_alnum-All (value_of r)) s)
    ]

abbrev AllListed : List Bytes → Type 0
AllListed = All (λ n. is_listed kept_attrs n ≡ true)

emit_attrs-SafeAttrs :
    (names : List Bytes) (attrs : Bytes) → AllListed names → SafeAttrs (emit_attrs names attrs)
unfolding emit_attrs
emit_attrs-SafeAttrs [] attrs h = no_attr
emit_attrs-SafeAttrs (n ∷ ns) attrs h =
    emit_attr-SafeAttrs n (find_attr (n ++ 61 ∷ []) none attrs) (emit_attrs ns attrs) h.0
      (emit_attrs-SafeAttrs ns attrs h.1)

kept_attrs-AllListed : AllListed kept_attrs
unfolding bytes_eq
kept_attrs-AllListed = (refl, (refl, (refl, (refl, tt))))

write_tag-SafeHtml :
    (is_close : Bool) (body tail : Bytes)
    → SafeHtml tail
    → SafeHtml (write_tag is_close body ++ tail)
unfolding write_tag is_allowed_table_tag
write_tag-SafeHtml true body tail s =
    let name = ascii_lower (name_of body) in
    elim (Bool-cases (is_listed allowed_tags name)) [
      | inr other ↦ rw other s
      | inl allowed ↦ rw allowed (closing name tail allowed s)
    ]
write_tag-SafeHtml false body tail s =
    let name = ascii_lower (name_of body) in
    let attrs = emit_attrs kept_attrs (attrs_of body) in
    elim (Bool-cases (is_listed allowed_tags name)) [
      | inr other ↦ rw other s
      | inl allowed ↦ rw allowed (
          opening name attrs tail allowed
            (emit_attrs-SafeAttrs kept_attrs (attrs_of body) kept_attrs-AllListed) s)
    ]

sanitize_tag-SafeHtml : (inner tail : Bytes) → SafeHtml tail → SafeHtml (sanitize_tag inner ++ tail)
unfolding sanitize_tag
sanitize_tag-SafeHtml inner tail s = write_tag-SafeHtml (is_closing inner) (body_of inner) tail s

at_tag-SafeHtml :
    (rest tail : Bytes) (o : Option (Bytes × Bytes))
    → SafeHtml tail
    → SafeHtml ((at_tag rest o).0 ++ tail)
at_tag-SafeHtml rest tail none s =
    byte 38 _ refl (byte 108 _ refl (byte 116 _ refl (byte 59 tail refl s)))
at_tag-SafeHtml rest tail (some (inner, after)) s =
    elim (Bool-cases (is_script inner || is_style inner)) [
      | inl element ↦ rw element s
      | inr tag ↦ rw tag (sanitize_tag-SafeHtml inner tail s)
    ]

sanitize_round-SafeHtml :
    (c : ℕ) (rest tail : Bytes) → SafeHtml tail → SafeHtml ((sanitize_round c rest).0 ++ tail)
sanitize_round-SafeHtml c rest tail s = elim (Bool-cases (c == 60)) [
  | inl e ↦ rw e (at_tag-SafeHtml rest tail (split_first 62 rest) s)
  | inr e ↦ rw e (byte c tail e s)
]

Sanitizes-SafeHtml : {s out : Bytes} → Sanitizes s out → SafeHtml out
Sanitizes-SafeHtml finished = no_html
Sanitizes-SafeHtml (round c rest {out} r) =
    sanitize_round-SafeHtml c rest out (Sanitizes-SafeHtml r)

-- Whatever the markup, the loop ends of itself, and in what it writes every '<' begins a structural tag
-- of a table, whose attributes are colspan, rowspan, align and valign with letters and digits for
-- values.
pub sanitize_table_html-SafeHtml :
    (html : Bytes) → Sanitizes html (sanitize_table_html html) × SafeHtml (sanitize_table_html html)
unfolding sanitize_table_html
sanitize_table_html-SafeHtml html =
    let run = sanitize_loop-Sanitizes (length html) html (omega arith) in
    (run, Sanitizes-SafeHtml run)
