-- ===== src/Validation/OptionSteps.antt =====
-- The values that a request that passes `parse_query_options` goes through, one step after the other.
use turbo_ocr.Common.{◌≡◌, refl, Bool, true, false, not, ◌&&◌, ◌||◌, arith, codes}
use turbo_ocr.Validation.Check.{ok, fail_if-ok, bind-ok, ok-injective}
use turbo_ocr.Validation.Options.{
  Request, InferOptions, default_options, Build, parse_bool_query, with_layout, with_reading_order,
  with_blocks, with_structure, with_text, parse_text_flag, parse_query_options,
}

-- The values that a request that passes goes through.
pub record Steps (b : Build) (req : Request) (o : InferOptions) : Type 0 where
  pub layout : Bool
  pub order : Bool
  pub blocks : Bool
  pub tables : Bool
  pub formulas : Bool
  pub text_flag : Bool
  pub o1 : InferOptions
  pub o2 : InferOptions
  pub o3 : InferOptions
  pub o4 : InferOptions
  pub layout_eq : parse_bool_query req (codes "layout") ≡ ok layout
  pub order_eq : parse_bool_query req (codes "reading_order") ≡ ok order
  pub blocks_eq : parse_bool_query req (codes "as_blocks") ≡ ok blocks
  pub tables_eq : parse_bool_query req (codes "tables") ≡ ok tables
  pub formulas_eq : parse_bool_query req (codes "formulas") ≡ ok formulas
  pub text_eq : parse_text_flag req ≡ ok text_flag
  pub step1 : with_layout b layout default_options ≡ ok o1
  pub step2 : with_reading_order b order o1 ≡ ok o2
  pub step3 : with_blocks b blocks o2 ≡ ok o3
  pub step4 : with_structure b tables formulas o3 ≡ ok o4
  pub step5 : with_text b text_flag o4 ≡ ok o

pub parse_query_options-Steps :
    (b : Build) (req : Request) {o : InferOptions}
    → parse_query_options b req ≡ ok o
    → Steps b req o
unfolding parse_query_options
parse_query_options-Steps b req {o} e =
    let (layout, e1, r1) = bind-ok (parse_bool_query req (codes "layout")) _ e in
    let (o1, s1, r2) = bind-ok (with_layout b layout default_options) _ r1 in
    let (order, e2, r3) = bind-ok (parse_bool_query req (codes "reading_order")) _ r2 in
    let (o2, s2, r4) = bind-ok (with_reading_order b order o1) _ r3 in
    let (blocks, e3, r5) = bind-ok (parse_bool_query req (codes "as_blocks")) _ r4 in
    let (o3, s3, r6) = bind-ok (with_blocks b blocks o2) _ r5 in
    let (tables, e4, r7) = bind-ok (parse_bool_query req (codes "tables")) _ r6 in
    let (formulas, e5, r8) = bind-ok (parse_bool_query req (codes "formulas")) _ r7 in
    let (o4, s4, r9) = bind-ok (with_structure b tables formulas o3) _ r8 in
    let (text_flag, e6, s5) = bind-ok (parse_text_flag req) _ r9 in
    record {
      layout = layout;
      order = order;
      blocks = blocks;
      tables = tables;
      formulas = formulas;
      text_flag = text_flag;
      o1 = o1;
      o2 = o2;
      o3 = o3;
      o4 = o4;
      layout_eq = e1;
      order_eq = e2;
      blocks_eq = e3;
      tables_eq = e4;
      formulas_eq = e5;
      text_eq = e6;
      step1 = s1;
      step2 = s2;
      step3 = s3;
      step4 = s4;
      step5 = s5;
    }

module _ (b : Build) (flag : Bool) (o : InferOptions) {t : InferOptions} where
  pub with_layout-eq :
      with_layout b flag o ≡ ok t
      → ((flag && not b.layout_available) ≡ false) × (record o { want_layout = flag } ≡ t)
  unfolding with_layout
  with_layout-eq e = let (h, k) = fail_if-ok _ _ _ _ e in (h, ok-injective k)

  pub with_reading_order-eq :
      with_reading_order b flag o ≡ ok t
      → ((flag && not b.layout_available) ≡ false)
        × (record o { want_reading_order = flag; want_layout = o.want_layout || flag } ≡ t)
  unfolding with_reading_order
  with_reading_order-eq e = let (h, k) = fail_if-ok _ _ _ _ e in (h, ok-injective k)

  pub with_blocks-eq :
      with_blocks b flag o ≡ ok t
      → ((flag && not b.layout_available) ≡ false)
        × (record o {
          want_blocks = flag;
          want_reading_order = o.want_reading_order || flag;
          want_layout = o.want_layout || flag;
        }
            ≡ t)
  unfolding with_blocks
  with_blocks-eq e = let (h, k) = fail_if-ok _ _ _ _ e in (h, ok-injective k)

  pub with_structure-eq :
      (formulas : Bool)
      → with_structure b flag formulas o ≡ ok t
      → (((flag || formulas) && not b.layout_available) ≡ false)
        × (record o {
          want_tables = flag;
          want_formulas = formulas;
          want_layout = o.want_layout || (flag || formulas);
        }
            ≡ t)
  unfolding with_structure
  with_structure-eq formulas e = let (h, k) = fail_if-ok _ _ _ _ e in (h, ok-injective k)

-- What a layout-only run rules out.
abbrev pub TextFree : Build → InferOptions → Bool → Type 0
TextFree b o flag =
    ((flag || not b.cpu_only) ≡ true)
    × ((flag || not (o.want_tables || (o.want_formulas || (o.want_blocks || o.want_reading_order))))
        ≡ true)
    × ((flag || (o.want_layout || b.allow_image_only)) ≡ true)

with_text_flags :
    (b : Build) (o : InferOptions)
    → b.cpu_only ≡ false
    → (o.want_tables || o.want_formulas) ≡ false
    → o.want_blocks ≡ false
    → o.want_reading_order ≡ false
    → (not o.want_layout && not b.allow_image_only) ≡ false
    → TextFree b o false
with_text_flags b o cpu structure blocks order useful = (ground arith, ground arith, ground arith)

pub with_text-eq :
    (b : Build) (flag : Bool) (o : InferOptions) {t : InferOptions}
    → with_text b flag o ≡ ok t
    → TextFree b o flag × (record o { want_text = flag } ≡ t)
unfolding with_text
with_text-eq b true o e = ((refl, refl, refl), ok-injective e)
with_text-eq b false o e =
    let (cpu, r1) = fail_if-ok _ _ _ _ e in
    let (structure, r2) = fail_if-ok _ _ _ _ r1 in
    let (blocks, r3) = fail_if-ok _ _ _ _ r2 in
    let (order, r4) = fail_if-ok _ _ _ _ r3 in
    let (loaded, r5) = fail_if-ok _ _ _ _ r4 in
    let (useful, last) = fail_if-ok _ _ _ _ r5 in
    (with_text_flags b o cpu structure blocks order useful, ok-injective last)
