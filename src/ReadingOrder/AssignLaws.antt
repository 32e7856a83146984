-- ===== src/ReadingOrder/AssignLaws.antt =====
-- The reading order is a permutation of the layout, headers first and footers last.
use mathlib.Core.List.{Perm}
use mathlib.Core.List.Perm
use turbo_ocr.Common.{
  Floats, ℕ, zero, suc, ◌+◌, ◌<◌, ◌≤◌, ◌≡◌, refl, ap, subst, Bool, true, false, Option, none, some,
  List, [], ◌∷◌, ◌++◌, map, ◌==◌, arith, if◌then◌else◌, length, get_elem?, set, replicate, ℤ,
  Bool-cases, inl, inr,
}
use turbo_ocr.Router.Types.{LayoutBox}
use turbo_ocr.ReadingOrder.Counting.{
  iota, count, count-append, count-iota_below, count-iota_le, Perm_of_count,
}
use turbo_ocr.ReadingOrder.XyCut.{recursive_xy_cut}
use turbo_ocr.ReadingOrder.CutLaws.{recursive_xy_cut-count}
use turbo_ocr.ReadingOrder.Assign.{
  reading_priority_bucket, mark_seen, missed, complete_order, entry_of, Buckets, push_bucket,
  rect_of, xy_cut_subset, fill_buckets, order_buckets, assign_reading_order,
}

-- The flag of a position, true beyond the end.
abbrev flag : Option Bool → Bool
flag none = true
flag (some b) = b

missed-count_below : (i k : ℕ) (seen : List Bool) → i < k → count i (missed k seen) ≡ 0
unfolding count
missed-count_below i k [] h = refl
missed-count_below i k (b ∷ seen) h =
    ground (arith, missed-count_below i (suc k) seen (omega arith))

-- The positions missed are those whose flag is off, once each.
missed-count :
    (k i at : ℕ) (seen : List Bool)
    → at ≡ k + i
    → count at (missed k seen) ≡ (if flag (get_elem? seen i) then 0 else 1)
unfolding count
missed-count k i at [] e = refl
missed-count k zero at (b ∷ seen) e =
    ground (arith, missed-count_below at (suc k) seen (omega arith))
missed-count k (suc i) at (b ∷ seen) e =
    ground (arith, missed-count (suc k) i at seen (omega arith))

flag-set :
    (seen : List Bool) (j i : ℕ)
    → flag (get_elem? (set seen j true) i) ≡ (if j == i then true else flag (get_elem? seen i))
flag-set [] j i = ground arith
flag-set (b ∷ seen) zero zero = refl
flag-set (b ∷ seen) zero (suc i) = ground arith
flag-set (b ∷ seen) (suc j) zero = ground arith
flag-set (b ∷ seen) (suc j) (suc i) = ground (arith, flag-set seen j i)

mark_seen-flag :
    (order : List ℕ) (seen : List Bool) (i : ℕ)
    → flag (get_elem? (mark_seen order seen) i)
      ≡ (if count i order == 0 then flag (get_elem? seen i) else true)
unfolding count
mark_seen-flag [] seen i = refl
mark_seen-flag (j ∷ order) seen i =
    ground (arith, mark_seen-flag order (set seen j true) i, flag-set seen j i)

count-iota-flag :
    (n k i at : ℕ)
    → at ≡ k + i
    → count at (iota n k) ≡ (if flag (get_elem? (replicate n false) i) then 0 else 1)
unfolding count
count-iota-flag zero k i at e = refl
count-iota-flag (suc n) k zero at e = ground (arith, count-iota_below at n (suc k) (omega arith))
count-iota-flag (suc n) k (suc i) at e =
    ground (arith, count-iota-flag n (suc k) i at (omega arith))

-- An order without repetitions is completed to a permutation.
pub complete_order-Perm :
    (n : ℕ) (order : List ℕ)
    → ((i : ℕ) → count i order ≤ count i (iota n 0))
    → Perm (complete_order n order) (iota n 0)
unfolding complete_order
complete_order-Perm n order h = Perm_of_count _ _ (λ i.
    let seen = mark_seen order (replicate n false) in
    ground (
      arith,
      h i,
      count-append i order (missed 0 seen),
      missed-count 0 i i seen (omega arith),
      count-iota-flag n 0 i i (omega arith),
      mark_seen-flag order (replicate n false) i,
      count-iota_le i n 0,
    ))

-- Reading a list at all its positions gives the list.
entry_of-iota :
    (subset back : List ℕ) (k : ℕ)
    → ((i : ℕ) → get_elem? subset (k + i) ≡ get_elem? back i)
    → map (entry_of subset) (iota (length back) k) ≡ back
entry_of-iota subset [] k h = refl
entry_of-iota subset (b ∷ back) k h =
    let here : get_elem? subset k ≡ some b =
      subst (λ n. get_elem? subset n ≡ some b) (omega arith) (h 0) in
    let later : (i : ℕ) → get_elem? subset (suc k + i) ≡ get_elem? back i =
      λ i. subst (λ n. get_elem? subset n ≡ get_elem? back i) (omega arith) (h (suc i)) in
    rw (here, entry_of-iota subset back (suc k) later) refl

-- All the positions of the buckets.
abbrev pub pooled : Buckets → List ℕ
pooled (first, body, last) = first ++ (body ++ last)

pooled-count :
    (j : ℕ) (first body last : List ℕ)
    → count j (pooled (first, body, last)) ≡ count j first + (count j body + count j last)
pooled-count j first body last =
    omega (arith, count-append j first (body ++ last), count-append j body last)

push_bucket-count :
    (j b k : ℕ) (bs : Buckets)
    → count j (pooled (push_bucket b k bs)) ≡ count j (pooled bs) + (if k == j then 1 else 0)
unfolding count
push_bucket-count j b k (first, body, last) =
    let pushed : (xs : List ℕ) → count j (xs ++ k ∷ []) ≡ count j xs + (if k == j then 1 else 0) =
      λ xs. omega (arith, count-append j xs (k ∷ [])) in
    let here = pooled-count j first body last in
    elim (Bool-cases (b == 0)) [
      | inl zeroth ↦
          rw zeroth (omega (arith, here, pooled-count j (first ++ k ∷ []) body last, pushed first))
      | inr e ↦ rw e (elim (Bool-cases (b == 1)) [
        | inl one ↦
            rw one (omega (arith, here, pooled-count j first (body ++ k ∷ []) last, pushed body))
        | inr two ↦
            rw two (omega (arith, here, pooled-count j first body (last ++ k ∷ []), pushed last))
      ])
    ]

module _ (fl : Floats) where
  pub xy_cut_subset-Perm :
      (layout : List (LayoutBox fl)) (subset : List ℕ) (gap : ℤ)
      → Perm (xy_cut_subset fl layout subset gap) subset
  unfolding xy_cut_subset
  xy_cut_subset-Perm layout [] gap = Perm.rfl
  xy_cut_subset-Perm layout (i ∷ is) gap =
      let subset = i ∷ is in
      let all = iota (length subset) 0 in
      let rects = map (rect_of fl layout) subset in
      subst (λ l. Perm (xy_cut_subset fl layout subset gap) l)
        (entry_of-iota subset subset 0 (λ i. ap (get_elem? subset) (omega arith)))
        (Perm.map (entry_of subset) (
          complete_order-Perm (length subset) (recursive_xy_cut rects all gap)
            (recursive_xy_cut-count rects all gap)))

  fill_buckets-count :
      (k j : ℕ) (layout : List (LayoutBox fl)) (bs : Buckets)
      → count j (pooled (fill_buckets fl k layout bs))
        ≡ count j (pooled bs) + count j (iota (length layout) k)
  unfolding fill_buckets count
  fill_buckets-count k j [] bs = omega arith
  fill_buckets-count k j (lb ∷ layout) bs =
      let pushed = push_bucket (reading_priority_bucket lb.class_id) k bs in
      omega (
        arith,
        fill_buckets-count (suc k) j layout pushed,
        push_bucket-count j (reading_priority_bucket lb.class_id) k bs,
      )

  -- Whatever the boxes and the gap, those without area included, the reading order is a permutation of
  -- the indices of the layout.
  pub assign_reading_order-Perm :
      (layout : List (LayoutBox fl)) (min_gap : ℤ)
      → Perm (assign_reading_order fl layout min_gap) (iota (length layout) 0)
  unfolding assign_reading_order order_buckets count
  assign_reading_order-Perm layout gap =
      let bs = fill_buckets fl 0 layout ([], [], []) in
      Perm.trans
        (Perm.append (xy_cut_subset-Perm layout bs.0 gap)
          (Perm.append (xy_cut_subset-Perm layout bs.1 gap) (xy_cut_subset-Perm layout bs.2 gap)))
        (Perm_of_count _ _ (λ i. omega (arith, fill_buckets-count 0 i layout ([], [], []))))
