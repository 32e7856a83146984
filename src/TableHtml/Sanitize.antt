-- ===== src/TableHtml/Sanitize.antt =====
-- `sanitize_table_html`. A position in the text is what stands from it on; the lower-cased copy is
-- taken of that.
use turbo_ocr.Common.{
  ℕ, zero, suc, Bool, true, false, ◌&&◌, ◌||◌, Option, none, some, List, [], ◌∷◌, ◌++◌, ◌==◌,
  if◌then◌else◌, is_empty, length, drop, Bytes, codes, bytes_eq, is_space,
}
use turbo_ocr.TableHtml.Texts.{ascii_lower, is_alnum, starts_with, split_first, find_lower}

-- kAllowed
abbrev pub allowed_tags : List Bytes
allowed_tags =
    codes "table"
    ∷ codes "thead"
    ∷ codes "tbody"
    ∷ codes "tr"
    ∷ codes "td"
    ∷ codes "th"
    ∷ codes "col"
    ∷ codes "colgroup"
    ∷ codes "caption"
    ∷ codes "b"
    ∷ codes "i"
    ∷ codes "strong"
    ∷ codes "em"
    ∷ []

abbrev pub is_listed : List Bytes → Bytes → Bool
is_listed [] name = false
is_listed (n ∷ ns) name = bytes_eq n name || is_listed ns name

unfoldable pub is_allowed_table_tag : Bytes → Bool
is_allowed_table_tag name = is_listed allowed_tags (ascii_lower name)

-- kAttrs
abbrev pub kept_attrs : List Bytes
kept_attrs = codes "colspan" ∷ codes "rowspan" ∷ codes "align" ∷ codes "valign" ∷ []

-- find_first_of(" \t\r\n"): the name, and the rest from the space on, empty when there is none.
abbrev pub is_blank : ℕ → Bool
is_blank c = c == 32 || (c == 9 || (c == 13 || c == 10))

unfoldable pub name_of : Bytes → Bytes
name_of [] = []
name_of (c ∷ cs) = let rest = name_of cs in if is_blank c then [] else c ∷ rest

unfoldable pub attrs_of : Bytes → Bytes
attrs_of [] = []
attrs_of (c ∷ cs) = let rest = attrs_of cs in if is_blank c then c ∷ cs else rest

-- The search for an attribute: what follows the first needle at a token boundary, after `prev`.
abbrev pub is_boundary : Option ℕ → Bool
is_boundary none = true
is_boundary (some c) = is_space c || (c == 34 || c == 39)

unfoldable pub find_attr : Bytes → Option ℕ → Bytes → Option Bytes
find_attr needle prev [] = none
find_attr needle prev (c ∷ cs) =
    let later = find_attr needle (some c) cs in
    if starts_with needle (ascii_lower (c ∷ cs)) && is_boundary prev
    then some (drop (length needle) (c ∷ cs))
    else later

unfoldable pub until_quote : ℕ → Bytes → Bytes
until_quote q [] = []
until_quote q (c ∷ cs) = let rest = until_quote q cs in if c == q then [] else c ∷ rest

unfoldable pub until_space : Bytes → Bytes
until_space [] = []
until_space (c ∷ cs) = let rest = until_space cs in if is_space c then [] else c ∷ rest

-- `val`
abbrev pub value_of : Bytes → Bytes
value_of [] = []
value_of (c ∷ cs) = if c == 34 || c == 39 then until_quote c cs else until_space (c ∷ cs)

-- `clean`
unfoldable pub keep_alnum : Bytes → Bytes
keep_alnum [] = []
keep_alnum (c ∷ cs) = let rest = keep_alnum cs in if is_alnum c then c ∷ rest else rest

abbrev pub write_attr : Bytes → Bytes → Bytes
write_attr name clean = if is_empty clean then [] else 32 ∷ name ++ (61 ∷ 34 ∷ clean ++ (34 ∷ []))

abbrev pub emit_attr : Bytes → Option Bytes → Bytes
emit_attr name none = []
emit_attr name (some rest) = write_attr name (keep_alnum (value_of rest))

unfoldable pub emit_attrs : List Bytes → Bytes → Bytes
emit_attrs [] attrs = []
emit_attrs (a ∷ as_) attrs =
    emit_attr a (find_attr (a ++ 61 ∷ []) none attrs) ++ emit_attrs as_ attrs

abbrev pub open_tag : Bytes → Bytes
open_tag body = ascii_lower (name_of body) ++ (emit_attrs kept_attrs (attrs_of body) ++ 62 ∷ [])

abbrev pub close_tag : Bytes → Bytes
close_tag body = 47 ∷ ascii_lower (name_of body) ++ 62 ∷ []

-- `closing`, and `body`.
abbrev pub is_closing : Bytes → Bool
is_closing [] = false
is_closing (c ∷ cs) = c == 47

abbrev pub body_of : Bytes → Bytes
body_of inner = if is_closing inner then drop 1 inner else inner

-- The tag of a body, when it is allowed.
unfoldable pub write_tag : Bool → Bytes → Bytes
write_tag is_close body =
    if is_allowed_table_tag (name_of body)
    then if is_close then 60 ∷ close_tag body else 60 ∷ open_tag body
    else []

unfoldable pub sanitize_tag : Bytes → Bytes
sanitize_tag inner = write_tag (is_closing inner) (body_of inner)

abbrev pub is_script : Bytes → Bool
is_script inner = starts_with (codes "script") (ascii_lower inner)

abbrev pub is_style : Bytes → Bool
is_style inner = starts_with (codes "style") (ascii_lower inner)

-- What follows the '>' of the close tag, nothing when there is none.
abbrev pub after_close : Option (Bytes × Bytes) → Bytes
after_close none = []
after_close (some (before, after)) = after

abbrev pub after_element : Option Bytes → Bytes
after_element none = []
after_element (some from_close) = after_close (split_first 62 from_close)

-- One '<', with what was found of its '>': what is written, and where the loop goes on.
abbrev pub at_tag : Bytes → Option (Bytes × Bytes) → Bytes × Bytes
at_tag rest none = (codes "&lt;", rest)
at_tag rest (some (inner, after)) =
    if is_script inner || is_style inner
    then (
      [],
      after_element
          (find_lower (if is_script inner then codes "</script" else codes "</style") (62 ∷ after)),
    )
    else (sanitize_tag inner, after)

-- One round of the loop.
abbrev pub sanitize_round : ℕ → Bytes → Bytes × Bytes
sanitize_round c rest = if c == 60 then at_tag rest (split_first 62 rest) else (c ∷ [], rest)

unfoldable pub sanitize_loop : ℕ → Bytes → Bytes
sanitize_loop fuel [] = []
sanitize_loop zero (c ∷ rest) = []
sanitize_loop (suc fuel) (c ∷ rest) =
    let round = sanitize_round c rest in round.0 ++ sanitize_loop fuel round.1

unfoldable pub sanitize_table_html : Bytes → Bytes
sanitize_table_html html = sanitize_loop (length html) html
