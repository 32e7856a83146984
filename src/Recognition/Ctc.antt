-- ===== src/Recognition/Ctc.antt =====
-- `ctc_greedy_decode` and `ctc_greedy_decode_raw` of src/recognition/ctc_decode.cpp. An index is a
-- class number from 0 on, as argmax gives it; a negative one would read outside the labels. The AVX2
-- argmax is not modelled.
use turbo_ocr.Common.{
  Floats, ℕ, suc, Bool, false, Option, none, some, List, [], ◌∷◌, ◌++◌, ◌==◌, ltb, if◌then◌else◌,
  get_elem?, Bytes, pos,
}

-- `none` is the initial last_index of -1, which is no class.
abbrev pub same_index : ℕ → Option ℕ → Bool
same_index index none = false
same_index index (some last) = index == last

module _ (fl : Floats) where
  -- indices[i] and scores[i].
  abbrev pub Frame : Type 0
  Frame = ℕ × fl.F

  -- The local variables of the loop.
  pub record CtcState : Type 0 where
    pub text : Bytes
    pub score : fl.F
    pub count : ℕ
    pub last_index : Option ℕ

  abbrev pub add_label : fl.F → Bytes → CtcState → CtcState
  add_label s label st = record st {
    text = st.text ++ label;
    score = fl.add st.score s;
    count = suc st.count;
  }

  -- `index != 0 && index < label_list.size()`.
  unfoldable pub emit : List Bytes → ℕ → fl.F → CtcState → CtcState
  emit labels index s st =
      if index == 0
      then st
      else elim (get_elem? labels index) [ none ↦ st | some label ↦ add_label s label st ]

  unfoldable pub ctc_step : List Bytes → ℕ → fl.F → CtcState → CtcState
  ctc_step labels index s st =
      record (if same_index index st.last_index then st else emit labels index s st) {
        last_index = some index;
      }

  unfoldable pub ctc_loop : List Bytes → List Frame → CtcState → CtcState
  ctc_loop labels [] st = st
  ctc_loop labels ((index, s) ∷ frames) st = ctc_loop labels frames (ctc_step labels index s st)

  abbrev pub ctc_start : CtcState
  ctc_start = record { text = []; score = fl.of_int (pos 0); count = 0; last_index = none }

  -- The mean score of the labels.
  abbrev pub mean_score : CtcState → fl.F
  mean_score st = if ltb 0 st.count then fl.div st.score (fl.of_int (pos st.count)) else st.score

  abbrev pub ctc_result : CtcState → Bytes × fl.F
  ctc_result st = (st.text, mean_score st)

  unfoldable pub ctc_greedy_decode : List Bytes → List Frame → Bytes × fl.F
  ctc_greedy_decode labels frames = ctc_result (ctc_loop labels frames ctc_start)

  -- The best of a row so far, and the entries from place j on.
  unfoldable pub argmax_from : ℕ → List fl.F → Frame → Frame
  argmax_from j [] best = best
  argmax_from j (v ∷ row) best = argmax_from (suc j) row (if fl.lt best.1 v then (j, v) else best)

  -- A row of logits has at least one class.
  abbrev pub argmax : fl.F × List fl.F → Frame
  argmax row = argmax_from 1 row.1 (0, row.0)

  unfoldable pub raw_loop : List Bytes → List (fl.F × List fl.F) → CtcState → CtcState
  raw_loop labels [] st = st
  raw_loop labels (row ∷ rows) st =
      raw_loop labels rows (ctc_step labels (argmax row).0 (argmax row).1 st)

  unfoldable pub ctc_greedy_decode_raw : List Bytes → List (fl.F × List fl.F) → Bytes × fl.F
  ctc_greedy_decode_raw labels rows = ctc_result (raw_loop labels rows ctc_start)
