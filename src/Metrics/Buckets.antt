-- ===== src/Metrics/Buckets.antt =====
-- What the numbers of the histogram are, without the sorting that computes them.
use mathlib.Core.Path.{fun_ext}
use execgo_runtime.Base.{
  ℕ, suc, ◌+◌, ◌≤◌, ◌≡◌, refl, sym, ap, ◌∙◌, false, Bool-cases, inl, inr, List, [], ◌∷◌, map, keep,
  All, arith, leb, leb→le, length, sort_by, insert_by, if◌then◌else◌, saturating_add, u64_max, min,
}
use execgo_runtime.Metrics.{partition_point, saturating_sum, histogram, buckets_ms}

-- How many of the durations are at most `bound`.
abbrev pub at_most : ℕ → List ℕ → ℕ
at_most bound ds = length (keep (λ d. leb d bound) ds)

abbrev pub total : List ℕ → ℕ
total [] = 0
total (d ∷ ds) = d + total ds

abbrev Ascending : List ℕ → Type 0
Ascending [] = Unit
Ascending (x ∷ xs) = All (λ y. x ≤ y) xs × Ascending xs

All-insert_by : (P : ℕ → Type 0) (x : ℕ) (ys : List ℕ) → P x → All P ys → All P (insert_by leb x ys)
All-insert_by P x [] p ps = (p, tt)
All-insert_by P x (y ∷ ys) p ps = elim (Bool-cases (leb x y)) [
  | inl e ↦ rw e (p, ps)
  | inr e ↦ rw e (ps.0, All-insert_by P x ys p ps.1)
]

All-le : (x y : ℕ) (ys : List ℕ) → x ≤ y → All (λ z. y ≤ z) ys → All (λ z. x ≤ z) ys
All-le x y [] h ps = tt
All-le x y (z ∷ ys) h ps = (omega (arith, ps.0), All-le x y ys h ps.1)

insert_by-Ascending : (x : ℕ) (ys : List ℕ) → Ascending ys → Ascending (insert_by leb x ys)
insert_by-Ascending x [] a = (tt, tt)
insert_by-Ascending x (y ∷ ys) a = elim (Bool-cases (leb x y)) [
  | inl e ↦ let le = leb→le x y e in rw e ((le, All-le x y ys le a.0), a)
  | inr e ↦
      let le : y ≤ x = ground (arith, e) in
      rw e (All-insert_by (λ z. y ≤ z) x ys le a.0, insert_by-Ascending x ys a.1)
]

sort_by-Ascending : (ds : List ℕ) → Ascending (sort_by leb ds)
sort_by-Ascending [] = tt
sort_by-Ascending (d ∷ ds) = insert_by-Ascending d (sort_by leb ds) (sort_by-Ascending ds)

none_at_most :
    (bound x : ℕ) (xs : List ℕ) → leb x bound ≡ false → All (λ y. x ≤ y) xs → at_most bound xs ≡ 0
none_at_most bound x [] e a = refl
none_at_most bound x (y ∷ xs) e a = ground (arith, a.0, none_at_most bound x xs e a.1)

partition_point-Ascending :
    (bound : ℕ) (xs : List ℕ)
    → Ascending xs
    → partition_point (λ d. leb d bound) xs ≡ at_most bound xs
unfolding partition_point
partition_point-Ascending bound [] a = refl
partition_point-Ascending bound (x ∷ xs) a = elim (Bool-cases (leb x bound)) [
  | inl e ↦ rw e (ap suc (partition_point-Ascending bound xs a.1))
  | inr e ↦ rw e (sym (none_at_most bound x xs e a.0))
]

-- A sum over the elements of a list, one number for each, does not read their order.
module _ (weight : ℕ → ℕ) where
  abbrev sum : List ℕ → ℕ
  sum [] = 0
  sum (d ∷ ds) = weight d + sum ds

  sum-insert_by : (x : ℕ) (ys : List ℕ) → sum (insert_by leb x ys) ≡ weight x + sum ys
  sum-insert_by x [] = refl
  sum-insert_by x (y ∷ ys) = ground (arith, sum-insert_by x ys)

  sum-sort_by : (ds : List ℕ) → sum (sort_by leb ds) ≡ sum ds
  sum-sort_by [] = refl
  sum-sort_by (d ∷ ds) = omega (arith, sum-insert_by d (sort_by leb ds), sum-sort_by ds)

at_most-sum :
    (bound : ℕ) (ds : List ℕ) → at_most bound ds ≡ sum (λ d. if leb d bound then 1 else 0) ds
at_most-sum bound [] = refl
at_most-sum bound (d ∷ ds) = ground (arith, at_most-sum bound ds)

at_most-sort_by : (bound : ℕ) (ds : List ℕ) → at_most bound (sort_by leb ds) ≡ at_most bound ds
at_most-sort_by bound ds =
    at_most-sum bound (sort_by leb ds)
    ∙ sum-sort_by (λ d. if leb d bound then 1 else 0) ds
    ∙ sym (at_most-sum bound ds)

total-sum : (ds : List ℕ) → total ds ≡ sum (λ d. d) ds
total-sum [] = refl
total-sum (d ∷ ds) = omega (arith, total-sum ds)

length-sum : (ds : List ℕ) → length ds ≡ sum (λ d. 1) ds
length-sum [] = refl
length-sum (d ∷ ds) = omega (arith, length-sum ds)

saturating_sum_lem :
    (start : ℕ) (ds : List ℕ)
    → start ≤ u64_max
    → saturating_sum start ds ≡ saturating_add start (total ds)
unfolding saturating_sum
saturating_sum_lem start [] h = omega arith
saturating_sum_lem start (d ∷ ds) h = omega (arith, saturating_sum_lem (saturating_add start d) ds)

-- In whatever order the durations come, a bucket counts exactly those that are at most its bound,
-- the sum is the exact one up to the largest `u64`, and the count is the number of the durations.
pub histogram_lem :
    (durations : List ℕ)
    → ((histogram durations).buckets ≡ map (λ bound. (bound, at_most bound durations)) buckets_ms)
      × ((histogram durations).sum ≡ min (total durations) u64_max)
      × ((histogram durations).count ≡ length durations)
unfolding histogram
histogram_lem durations =
    let sorted = sort_by leb durations in
    (
      ap (λ f. map f buckets_ms)
          (fun_ext λ bound.
            ap (λ n. (bound, n))
              (partition_point-Ascending bound sorted (sort_by-Ascending durations)
                ∙ at_most-sort_by bound durations)),
      saturating_sum_lem 0 sorted (omega arith)
          ∙ rw (total-sum sorted ∙ sum-sort_by (λ d. d) durations ∙ sym (total-sum durations))
              (omega arith),
      length-sum sorted ∙ sum-sort_by (λ d. 1) durations ∙ sym (length-sum durations),
    )
