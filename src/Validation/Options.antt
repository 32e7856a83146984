-- ===== src/Validation/Options.antt =====
-- validation/query_options.h: the feature flags of a request.
-- A request is what drogon's `getParameter` returns for each name, the empty text if absent. The CPU
-- build (`USE_CPU_ONLY`) is a flag of the configuration.
use turbo_ocr.Common.{
  ℕ, ◌+◌, Bool, true, false, not, ◌&&◌, ◌||◌, List, [], ◌∷◌, map, leb, if◌then◌else◌, Bytes, codes,
  is_empty,
}
use turbo_ocr.Validation.Check.{
  Message, text, about, Check, ok, err, ◌>>=◌, ◌>>◌, fail_if, invalid_parameter, layout_disabled,
}
use turbo_ocr.Validation.Params.{RequestRouting, in_group}

abbrev pub Request : Type 0
Request = Bytes → Bytes

pub record InferOptions : Type 0 where
  pub want_layout : Bool
  pub want_reading_order : Bool
  pub want_tables : Bool
  pub want_formulas : Bool
  pub want_blocks : Bool
  pub want_text : Bool
  pub routing_override : RequestRouting

abbrev pub default_options : InferOptions
default_options = record {
  want_layout = false;
  want_reading_order = false;
  want_tables = false;
  want_formulas = false;
  want_blocks = false;
  want_text = true;
  routing_override = record { table = []; formula = [] };
}

-- What the checks depend on besides the request.
pub record Build : Type 0 where
  pub cpu_only : Bool
  pub layout_available : Bool
  pub allow_image_only : Bool

-- `std::tolower` in the C locale.
unfoldable pub to_lower : ℕ → ℕ
to_lower c = if leb b'A' c && leb c b'Z' then c + 32 else c

abbrev pub yes_words : List Bytes
yes_words = codes "1" ∷ codes "true" ∷ codes "on" ∷ codes "yes" ∷ []

abbrev pub no_words : List Bytes
no_words = codes "0" ∷ codes "false" ∷ codes "off" ∷ codes "no" ∷ []

unfoldable pub parse_bool_query : Request → Bytes → Check Bool
parse_bool_query req key =
    let s = map to_lower (req key) in
    if is_empty (req key)
    then ok false
    else if in_group yes_words s
    then ok true
    else if in_group no_words s
    then ok false
    else err invalid_parameter (about key s)

abbrev pub needs_layout : Bytes → Message
needs_layout flags = about flags (codes "requires the layout model")

-- Each step of `parse_query_options` on the flag that it has parsed.
unfoldable pub with_layout : Build → Bool → InferOptions → Check InferOptions
with_layout b flag o = do
  fail_if (flag && not b.layout_available) layout_disabled (needs_layout (codes "layout"))
  ok (record o { want_layout = flag })

unfoldable pub with_reading_order : Build → Bool → InferOptions → Check InferOptions
with_reading_order b flag o = do
  fail_if (flag && not b.layout_available) layout_disabled (needs_layout (codes "reading_order"))
  ok (record o { want_reading_order = flag; want_layout = o.want_layout || flag })

unfoldable pub with_blocks : Build → Bool → InferOptions → Check InferOptions
with_blocks b flag o = do
  fail_if (flag && not b.layout_available) layout_disabled (needs_layout (codes "as_blocks"))
  ok (record o {
    want_blocks = flag;
    want_reading_order = o.want_reading_order || flag;
    want_layout = o.want_layout || flag;
  })

unfoldable pub with_structure : Build → Bool → Bool → InferOptions → Check InferOptions
with_structure b tables formulas o = do
  fail_if ((tables || formulas) && not b.layout_available) layout_disabled
      (needs_layout (codes "tables/formulas"))
  ok (record o {
    want_tables = tables;
    want_formulas = formulas;
    want_layout = o.want_layout || (tables || formulas);
  })

abbrev pub layout_only : Bytes → Message
layout_only flags = about (codes "text=0") flags

-- The combinations that a layout-only run rejects.
unfoldable pub with_text : Build → Bool → InferOptions → Check InferOptions
with_text b true o = ok (record o { want_text = true })
with_text b false o = do
  fail_if b.cpu_only invalid_parameter (layout_only (codes "CPU build"))
  fail_if (o.want_tables || o.want_formulas) invalid_parameter (layout_only (codes "structure"))
  fail_if o.want_blocks invalid_parameter (layout_only (codes "as_blocks"))
  fail_if o.want_reading_order invalid_parameter (layout_only (codes "reading_order"))
  fail_if (o.want_layout && not b.layout_available) layout_disabled (layout_only (codes "layout"))
  fail_if (not o.want_layout && not b.allow_image_only) invalid_parameter
      (layout_only (codes "nothing to return"))
  ok (record o { want_text = false })

-- `text` is parsed only if present; it is on by default.
unfoldable pub parse_text_flag : Request → Check Bool
parse_text_flag req =
    if is_empty (req (codes "text")) then ok true else parse_bool_query req (codes "text")

unfoldable pub parse_query_options : Build → Request → Check InferOptions
parse_query_options b req = do
  layout ← parse_bool_query req (codes "layout")
  o₁ ← with_layout b layout default_options
  reading_order ← parse_bool_query req (codes "reading_order")
  o₂ ← with_reading_order b reading_order o₁
  as_blocks ← parse_bool_query req (codes "as_blocks")
  o₃ ← with_blocks b as_blocks o₂
  tables ← parse_bool_query req (codes "tables")
  formulas ← parse_bool_query req (codes "formulas")
  o₄ ← with_structure b tables formulas o₃
  text_flag ← parse_text_flag req
  with_text b text_flag o₄

unfoldable pub check_structure_backends : InferOptions → Bool → Bool → Check (Unit {0})
check_structure_backends o table_available formula_available = do
  fail_if (o.want_tables && not table_available) (codes "TABLE_BACKEND_DISABLED")
      (text (codes "no table backend"))
  fail_if (o.want_formulas && not formula_available) (codes "FORMULA_BACKEND_DISABLED")
      (text (codes "no formula backend"))
