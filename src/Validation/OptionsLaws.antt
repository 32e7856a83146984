-- ===== src/Validation/OptionsLaws.antt =====
-- What the flags of a request that passes `parse_query_options` satisfy.
use turbo_ocr.Common.{◌≡◌, refl, ap, subst, ◌∙◌, Bool, true, false, not, ◌&&◌, ◌||◌, arith, codes}
use turbo_ocr.Validation.Check.{ok}
use turbo_ocr.Validation.Options.{
  Request, InferOptions, default_options, Build, parse_bool_query, parse_text_flag,
  parse_query_options,
}
use turbo_ocr.Validation.OptionSteps.{
  parse_query_options-Steps, with_layout-eq, with_reading_order-eq, with_blocks-eq,
  with_structure-eq, TextFree, with_text-eq,
}

-- The flags that the request asks for, and what the server makes of them.
pub record Answers (b : Build) (req : Request) (o : InferOptions) : Type 0 where
  pub layout : Bool
  pub order : Bool
  pub asked_layout : parse_bool_query req (codes "layout") ≡ ok layout
  pub asked_order : parse_bool_query req (codes "reading_order") ≡ ok order
  pub asked_blocks : parse_bool_query req (codes "as_blocks") ≡ ok o.want_blocks
  pub asked_tables : parse_bool_query req (codes "tables") ≡ ok o.want_tables
  pub asked_formulas : parse_bool_query req (codes "formulas") ≡ ok o.want_formulas
  pub asked_text : parse_text_flag req ≡ ok o.want_text
  -- Reading order is on if asked for or implied by blocks, and layout if any flag needs it.
  pub order_is : o.want_reading_order ≡ (order || o.want_blocks)
  pub layout_is :
      o.want_layout ≡ (layout || (o.want_reading_order || (o.want_tables || o.want_formulas)))
  -- No stage that needs the layout model is on without it.
  pub layout_loaded : (not o.want_layout || b.layout_available) ≡ true
  -- A layout-only run has no stage that reads recognised text, and has something to return.
  pub text_free :
      (o.want_text
        || not (o.want_tables || (o.want_formulas || (o.want_blocks || o.want_reading_order))))
      ≡ true
  pub text_useful : (o.want_text || (o.want_layout || b.allow_image_only)) ≡ true
  pub text_supported : (o.want_text || not b.cpu_only) ≡ true

module _ (b : Build) (req : Request) (layout order blocks tables formulas text_flag : Bool) where
  abbrev before_text : InferOptions
  before_text = record default_options {
    want_layout = ((layout || order) || blocks) || (tables || formulas);
    want_reading_order = order || blocks;
    want_blocks = blocks;
    want_tables = tables;
    want_formulas = formulas;
  }

  module _ (asked_layout : parse_bool_query req (codes "layout") ≡ ok layout)
      (asked_order : parse_bool_query req (codes "reading_order") ≡ ok order)
      (asked_blocks : parse_bool_query req (codes "as_blocks") ≡ ok blocks)
      (asked_tables : parse_bool_query req (codes "tables") ≡ ok tables)
      (asked_formulas : parse_bool_query req (codes "formulas") ≡ ok formulas)
      (asked_text : parse_text_flag req ≡ ok text_flag) where
    answers :
        (layout && not b.layout_available) ≡ false
        → (order && not b.layout_available) ≡ false
        → (blocks && not b.layout_available) ≡ false
        → ((tables || formulas) && not b.layout_available) ≡ false
        → TextFree b before_text text_flag
        → Answers b req (record before_text { want_text = text_flag })
    answers h1 h2 h3 h4 h5 = record {
      layout = layout;
      order = order;
      asked_layout = asked_layout;
      asked_order = asked_order;
      asked_blocks = asked_blocks;
      asked_tables = asked_tables;
      asked_formulas = asked_formulas;
      asked_text = asked_text;
      order_is = refl;
      layout_is = ground arith;
      layout_loaded = ground arith;
      text_free = h5.1;
      text_useful = h5.2;
      text_supported = h5.0;
    }

pub parse_query_options-closed :
    (b : Build) (req : Request) {o : InferOptions}
    → parse_query_options b req ≡ ok o
    → Answers b req o × (o.routing_override ≡ default_options.routing_override)
parse_query_options-closed b req {o} e =
    let s = parse_query_options-Steps b req e in
    let (h1, p1) = with_layout-eq b s.layout default_options s.step1 in
    let (h2, p2) = with_reading_order-eq b s.order s.o1 s.step2 in
    let (h3, p3) = with_blocks-eq b s.blocks s.o2 s.step3 in
    let (h4, p4) = with_structure-eq b s.tables s.o3 s.formulas s.step4 in
    let (h5, p5) = with_text-eq b s.text_flag s.o4 s.step5 in
    let q2 =
      ap
        (λ (o : InferOptions). record o {
          want_reading_order = s.order;
          want_layout = o.want_layout || s.order;
        })
        p1
      ∙ p2 in
    let q3 =
      ap
        (λ (o : InferOptions). record o {
          want_blocks = s.blocks;
          want_reading_order = o.want_reading_order || s.blocks;
          want_layout = o.want_layout || s.blocks;
        })
        q2
      ∙ p3 in
    let q4 : before_text b req s.layout s.order s.blocks s.tables s.formulas s.text_flag ≡ s.o4 =
      ap
        (λ (o : InferOptions). record o {
          want_tables = s.tables;
          want_formulas = s.formulas;
          want_layout = o.want_layout || (s.tables || s.formulas);
        })
        q3
      ∙ p4 in
    subst (λ o. Answers b req o × (o.routing_override ≡ default_options.routing_override))
      (ap (λ (o : InferOptions). record o { want_text = s.text_flag }) q4 ∙ p5)
      (
        (answers b req s.layout s.order s.blocks s.tables s.formulas s.text_flag s.layout_eq
            s.order_eq s.blocks_eq s.tables_eq s.formulas_eq s.text_eq h1 h2 h3 h4
            (rw (← q4) at h5)),
        refl,
      )
