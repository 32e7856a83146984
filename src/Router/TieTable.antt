-- ===== src/Router/TieTable.antt =====
-- The only table of a page keeps its decision through `resolve_tie_breakers` of
-- src/router/cua_router_rules.cpp, whatever overlaps it.
use turbo_ocr.Common.{
  Floats, ℕ, suc, ◌+◌, ◌<◌, ◌≡◌, ◌≢◌, refl, subst, ◌∙◌, true, false, List, [], ◌∷◌, ◌++◌, get_elem?,
  All, arith, length,
}
use turbo_ocr.Router.Types.{RouterDecision}
use turbo_ocr.Router.Rules.{is_class}
use turbo_ocr.Router.TieBreak.{
  pair_verdict, apply_verdict, Cell, against, tie_rounds, resolve_tie_breakers,
}
use turbo_ocr.Router.TieLaws.{
  pair_verdict-SparesFirst, pair_verdict-SparesSecond, spares_other, spares_first, spares_second,
}

module _ (fl : Floats) where
  abbrev pub IsNoTable : Cell fl → Type 0
  IsNoTable c = is_class c.0.class_id 21 ≡ false

  -- Rounds away from the place k.
  against-untouched :
      (i k : ℕ) (a : Cell fl) (j : ℕ) (bs : List (Cell fl)) (ds : List RouterDecision)
      → i ≢ k
      → k < j
      → get_elem? (against fl i a j bs ds) k ≡ get_elem? ds k
  unfolding against
  against-untouched i k a j [] ds ne lt = refl
  against-untouched i k a j (b ∷ bs) ds ne lt =
      let v = pair_verdict fl a.0 b.0 a.1 b.1 in
      against-untouched i k a (suc j) bs (apply_verdict i j v ds) ne (omega arith)
      ∙ spares_other i j k v ds ne (λ e. omega arith)

  module _ (t : Cell fl) (is_table : is_class t.0.class_id 21 ≡ true) where
    -- The table's own round.
    against-table :
        (k j : ℕ) (bs : List (Cell fl)) (ds : List RouterDecision)
        → k < j
        → All IsNoTable bs
        → get_elem? (against fl k t j bs ds) k ≡ get_elem? ds k
    unfolding against
    against-table k j [] ds lt h = refl
    against-table k j (b ∷ bs) ds lt h =
        let v = pair_verdict fl t.0 b.0 t.1 b.1 in
        against-table k (suc j) bs (apply_verdict k j v ds) (omega arith) h.1
        ∙ spares_first k j v ds (λ e. omega arith)
            (pair_verdict-SparesFirst fl t.0 b.0 t.1 b.1 is_table h.0)

    -- The round of a cell before it, with the table at the place k.
    against-before :
        (i j k : ℕ) (a : Cell fl) (mid post : List (Cell fl)) (ds : List RouterDecision)
        → i < j
        → j + length mid ≡ k
        → IsNoTable a
        → get_elem? (against fl i a j (mid ++ t ∷ post) ds) k ≡ get_elem? ds k
    unfolding against
    against-before i j k a [] post ds lt e other =
        let v = pair_verdict fl a.0 t.0 a.1 t.1 in
        let here : j ≡ k = omega arith in
        against-untouched i k a (suc j) post (apply_verdict i j v ds) (λ q. omega arith)
          (omega arith)
        ∙ subst (λ z. get_elem? (apply_verdict i j v ds) z ≡ get_elem? ds z) here
            (spares_second i j v ds (λ q. omega arith)
              (pair_verdict-SparesSecond fl a.0 t.0 a.1 t.1 other is_table))
    against-before i j k a (b ∷ mid) post ds lt e other =
        let v = pair_verdict fl a.0 b.0 a.1 b.1 in
        against-before i (suc j) k a mid post (apply_verdict i j v ds) (omega arith) (omega arith)
          other
        ∙ spares_other i j k v ds (λ q. omega arith) (λ q. omega arith)

    rounds-after :
        (i k : ℕ) (cells : List (Cell fl)) (ds : List RouterDecision)
        → k < i
        → get_elem? (tie_rounds fl i cells ds) k ≡ get_elem? ds k
    unfolding tie_rounds
    rounds-after i k [] ds lt = refl
    rounds-after i k (a ∷ rest) ds lt =
        rounds-after (suc i) k rest (against fl i a (suc i) rest ds) (omega arith)
        ∙ against-untouched i k a (suc i) rest ds (λ e. omega arith) (omega arith)

    rounds-table :
        (i k : ℕ) (pre post : List (Cell fl)) (ds : List RouterDecision)
        → i + length pre ≡ k
        → All IsNoTable pre
        → All IsNoTable post
        → get_elem? (tie_rounds fl i (pre ++ t ∷ post) ds) k ≡ get_elem? ds k
    unfolding tie_rounds
    rounds-table i k [] post ds e hpre hpost =
        let here : i ≡ k = omega arith in
        rounds-after (suc i) k post (against fl i t (suc i) post ds) (omega arith)
        ∙ subst (λ z. get_elem? (against fl i t (suc i) post ds) z ≡ get_elem? ds z) here
            (against-table i (suc i) post ds (omega arith) hpost)
    rounds-table i k (a ∷ pre) post ds e hpre hpost =
        rounds-table (suc i) k pre post (against fl i a (suc i) (pre ++ t ∷ post) ds) (omega arith)
          hpre.1 hpost
        ∙ against-before i (suc i) k a pre post ds (omega arith) (omega arith) hpre.0

-- When exactly one cell of the page is a table, the tie-breakers leave the decision of that cell as
-- it was, whatever cells overlap it or contain it and whatever the floats.
resolve_tie_breakers-only_table :
    (fl : Floats) (t : Cell fl) (pre post : List (Cell fl)) (ds : List RouterDecision)
    → is_class t.0.class_id 21 ≡ true
    → All (IsNoTable fl) pre
    → All (IsNoTable fl) post
    → get_elem? (resolve_tie_breakers fl ds (pre ++ t ∷ post)) (length pre)
      ≡ get_elem? ds (length pre)
unfolding resolve_tie_breakers
resolve_tie_breakers-only_table fl t pre post ds is_table hpre hpost =
    rounds-table fl t is_table 0 (length pre) pre post ds (omega arith) hpre hpost
