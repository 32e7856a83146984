-- ===== src/Recognition/CtcLaws.antt =====
-- What `ctc_greedy_decode` of src/recognition/ctc_decode.cpp reads from an alignment.
use turbo_ocr.Common.{
  Floats, ℕ, ◌≡◌, refl, sym, ap, ◌∙◌, false, Option, none, some, List, [], ◌∷◌, ◌++◌, map,
  append-nil, append_assoc, ◌==◌, ==_refl, Bool-cases, inl, inr, get_elem?, Bytes, zero, suc, ◌+◌,
  ◌<◌, true, if◌then◌else◌, arith,
}
use mathlib.Core.Option.{some-injective}
use turbo_ocr.Recognition.Ctc.{
  same_index, Frame, CtcState, argmax_from, emit, ctc_step, ctc_loop, ctc_start, ctc_greedy_decode,
  argmax, raw_loop, ctc_greedy_decode_raw,
}

abbrev pub concat : List Bytes → Bytes
concat [] = []
concat (t ∷ ts) = t ++ concat ts

module _ (fl : Floats) (labels : List Bytes) where
  -- The frames spell the texts, in the sense of CTC: behind the class `last`, a frame is a blank, or
  -- repeats its predecessor, or is a label of its own.
  pub data Aligns : Option ℕ → List Bytes → List (Frame fl) → Type 0 where
    ended : {last : Option ℕ} → Aligns last [] []
    blank :
        {last : Option ℕ} {ts : List Bytes} {frames : List (Frame fl)} (s : fl.F)
        → Aligns (some 0) ts frames
        → Aligns last ts ((0, s) ∷ frames)
    repeated :
        {index : ℕ} {ts : List Bytes} {frames : List (Frame fl)} (s : fl.F)
        → Aligns (some index) ts frames
        → Aligns (some index) ts ((index, s) ∷ frames)
    labelled :
        {last : Option ℕ} {ts : List Bytes} {frames : List (Frame fl)} {t : Bytes} (index : ℕ)
        (s : fl.F)
        → same_index index last ≡ false
        → (index == 0) ≡ false
        → get_elem? labels index ≡ some t
        → Aligns (some index) ts frames
        → Aligns last (t ∷ ts) ((index, s) ∷ frames)

  step-blank : (s : fl.F) (st : CtcState fl) → (ctc_step fl labels 0 s st).text ≡ st.text
  unfolding ctc_step emit
  step-blank s st = elim (Bool-cases (same_index 0 st.last_index)) [
    | inl h ↦ rw h refl
    | inr h ↦ rw h refl
  ]

  step-repeated :
      (index : ℕ) (s : fl.F) (st : CtcState fl)
      → st.last_index ≡ some index
      → (ctc_step fl labels index s st).text ≡ st.text
  unfolding ctc_step
  step-repeated index s st e = rw (e, ==_refl index) refl

  step-labelled :
      (index : ℕ) (s : fl.F) (st : CtcState fl) (t : Bytes)
      → same_index index st.last_index ≡ false
      → (index == 0) ≡ false
      → get_elem? labels index ≡ some t
      → (ctc_step fl labels index s st).text ≡ st.text ++ t
  unfolding ctc_step emit
  step-labelled index s st t fresh mark found = rw (fresh, mark, found) refl

  step-last :
      (index : ℕ) (s : fl.F) (st : CtcState fl)
      → (ctc_step fl labels index s st).last_index ≡ some index
  unfolding ctc_step
  step-last index s st = refl

  loop-Aligns :
      {last : Option ℕ} {ts : List Bytes} {frames : List (Frame fl)} (st : CtcState fl)
      → st.last_index ≡ last
      → Aligns last ts frames
      → (ctc_loop fl labels frames st).text ≡ st.text ++ concat ts
  unfolding ctc_loop
  loop-Aligns st e ended = sym (append-nil st.text)
  loop-Aligns st e (blank {last} {ts} {frames} s rest) =
      loop-Aligns (ctc_step fl labels 0 s st) (step-last 0 s st) rest
      ∙ ap (λ z. z ++ concat ts) (step-blank s st)
  loop-Aligns st e (repeated {index} {ts} {frames} s rest) =
      loop-Aligns (ctc_step fl labels index s st) (step-last index s st) rest
      ∙ ap (λ z. z ++ concat ts) (step-repeated index s st e)
  loop-Aligns st e (labelled {last} {ts} {frames} {t} index s fresh mark found rest) =
      loop-Aligns (ctc_step fl labels index s st) (step-last index s st) rest
      ∙ ap (λ z. z ++ concat ts)
          (step-labelled index s st t (ap (same_index index) e ∙ fresh) mark found)
      ∙ append_assoc st.text t (concat ts)

  -- Whatever frames align with a sequence of labels, with any repetitions and blanks that CTC allows
  -- between them, the greedy decoder reads exactly these labels, one after the other.
  pub ctc_greedy_decode-Aligns :
      (ts : List Bytes) (frames : List (Frame fl))
      → Aligns none ts frames
      → (ctc_greedy_decode fl labels frames).0 ≡ concat ts
  unfolding ctc_greedy_decode
  ctc_greedy_decode-Aligns ts frames a = loop-Aligns (ctc_start fl) refl a

  raw_loop-eq :
      (rows : List (fl.F × List fl.F)) (st : CtcState fl)
      → raw_loop fl labels rows st ≡ ctc_loop fl labels (map (argmax fl) rows) st
  unfolding raw_loop ctc_loop
  raw_loop-eq [] st = refl
  raw_loop-eq (row ∷ rows) st =
      raw_loop-eq rows (ctc_step fl labels (argmax fl row).0 (argmax fl row).1 st)

  -- The frame of a row has the place and the value of its first maximum: every entry before it is
  -- less, and it is less than none behind it.
  abbrev pub IsFirstMax : fl.F × List fl.F → Frame fl → Type 0
  IsFirstMax (v, row) (k, top) =
      (get_elem? (v ∷ row) k ≡ some top)
      × ((j : ℕ) (w : fl.F) → get_elem? (v ∷ row) j ≡ some w → j < k → fl.lt w top ≡ true)
      × ((j : ℕ) (w : fl.F) → get_elem? (v ∷ row) j ≡ some w → k < j → fl.lt top w ≡ false)

  -- Row by row.
  abbrev pub AreFirstMax : List (fl.F × List fl.F) → List (Frame fl) → Type 0
  AreFirstMax [] [] = Unit
  AreFirstMax (row ∷ rows) (frame ∷ frames) = IsFirstMax row frame × AreFirstMax rows frames
  AreFirstMax _ _ = ⊥

  -- Behind the maximum nothing replaces it.
  argmax_from-stay :
      (j : ℕ) (row : List fl.F) (best : Frame fl)
      → ((i : ℕ) (w : fl.F) → get_elem? row i ≡ some w → fl.lt best.1 w ≡ false)
      → argmax_from fl j row best ≡ best
  unfolding argmax_from
  argmax_from-stay j [] best none_above = refl
  argmax_from-stay j (w ∷ row) best none_above =
      rw (none_above 0 w refl) (argmax_from-stay (suc j) row best (λ i x e. none_above (suc i) x e))

  -- On the way to the maximum, `d` entries from here, the best so far is less.
  argmax_from-reach :
      (d j : ℕ) (row : List fl.F) (best : Frame fl) (top : fl.F)
      → get_elem? row d ≡ some top
      → fl.lt best.1 top ≡ true
      → ((i : ℕ) (w : fl.F) → get_elem? row i ≡ some w → i < d → fl.lt w top ≡ true)
      → ((i : ℕ) (w : fl.F) → get_elem? row i ≡ some w → d < i → fl.lt top w ≡ false)
      → argmax_from fl j row best ≡ (j + d, top)
  unfolding argmax_from
  argmax_from-reach d j [] best top there less before behind = absurd (cc there)
  argmax_from-reach zero j (w ∷ row) best top there less before behind =
      let same = some-injective w top there in
      rw (same, less)
        (argmax_from-stay (suc j) row (j, top) (λ i x e. behind (suc i) x e (omega arith))
          ∙ ap (λ n. (n, top)) (omega arith))
  argmax_from-reach (suc d) j (w ∷ row) best top there less before behind =
      let next : fl.lt (if fl.lt best.1 w then (j, w) else best).1 top ≡ true =
        elim (Bool-cases (fl.lt best.1 w)) [
          | inl up ↦ rw up (before 0 w refl (omega arith))
          | inr no_more ↦ rw no_more less
        ] in
      argmax_from-reach d (suc j) row (if fl.lt best.1 w then (j, w) else best) top there next
        (λ i x e near. before (suc i) x e (omega arith))
        (λ i x e far. behind (suc i) x e (omega arith))
      ∙ ap (λ n. (n, top)) (omega arith)

  argmax-IsFirstMax :
      (row : fl.F × List fl.F) (frame : Frame fl) → IsFirstMax row frame → argmax fl row ≡ frame
  argmax-IsFirstMax (v, row) (zero, top) (there, before, behind) =
      let same = some-injective v top there in
      rw same (argmax_from-stay 1 row (0, top) (λ i w e. behind (suc i) w e (omega arith)))
  argmax-IsFirstMax (v, row) (suc k, top) (there, before, behind) =
      argmax_from-reach k 1 row (0, v) top there (before 0 v refl (omega arith))
        (λ i w e near. before (suc i) w e (omega arith))
        (λ i w e far. behind (suc i) w e (omega arith))
      ∙ ap (λ n. (n, top)) (omega arith)

  map-argmax-AreFirstMax :
      (rows : List (fl.F × List fl.F)) (frames : List (Frame fl))
      → AreFirstMax rows frames
      → map (argmax fl) rows ≡ frames
  map-argmax-AreFirstMax [] [] h = refl
  map-argmax-AreFirstMax [] (f ∷ fs) h = absurd h
  map-argmax-AreFirstMax (r ∷ rs) [] h = absurd h
  map-argmax-AreFirstMax (r ∷ rs) (f ∷ fs) (here, there) =
      cc (argmax-IsFirstMax r f here, map-argmax-AreFirstMax rs fs there)

  -- Whatever the rows of logits of a line: when the first maxima of the rows align with a sequence of
  -- labels, the decoder of logits reads exactly these labels. It asks nothing of the order of floats, so
  -- it says nothing of a row without a first maximum, such as one of NaNs.
  pub ctc_greedy_decode_raw-Aligns :
      (ts : List Bytes) (rows : List (fl.F × List fl.F)) (frames : List (Frame fl))
      → AreFirstMax rows frames
      → Aligns none ts frames
      → (ctc_greedy_decode_raw fl labels rows).0 ≡ concat ts
  unfolding ctc_greedy_decode_raw
  ctc_greedy_decode_raw-Aligns ts rows frames tops aligned =
      ap (λ st. st.text) (raw_loop-eq rows (ctc_start fl))
      ∙ ap (λ fs. (ctc_loop fl labels fs (ctc_start fl)).text)
          (map-argmax-AreFirstMax rows frames tops)
      ∙ loop-Aligns (ctc_start fl) refl aligned
