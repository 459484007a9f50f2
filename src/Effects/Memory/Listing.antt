-- ===== src/Effects/Memory/Listing.antt =====
-- What a sorted page of a list of documents holds.
use mathlib.Core.List.{Memᴰ}
use high_scale_job_scheduler.Prelude.{
  ℕ, zero, suc, ℤ, pos, negsuc, ◌≡◌, refl, ◌≤◌, ◌⊎◌, inl, inr, Bool, true, false, List, [], ◌∷◌,
  All, arith, Bool-cases, length, take, drop, filter_if, and_left, and_right, ap, subst,
}
use high_scale_job_scheduler.Models.{Job}
use high_scale_job_scheduler.Effects.World.{SortedBy, IsFull}
use high_scale_job_scheduler.Effects.Memory.{
  cut, insert_by, sort_by, precedes_none, none_precedes, in_order, all_after,
}

module _ {κ} (P : Job → Type κ) where
  All-insert_by :
      (before : Job → Job → Bool) (k : Job) (js : List Job)
      → P k
      → All P js
      → All P (insert_by before k js)
  unfolding insert_by
  All-insert_by before k [] h a = (h, tt)
  All-insert_by before k (j ∷ js) h a = elim (Bool-cases (before j k)) [
    | inl e ↦ rw (e, insert_by) (a.0, All-insert_by before k js h a.1)
    | inr e ↦ rw (e, insert_by) (h, a)
  ]

  pub All-sort_by :
      (before : Job → Job → Bool) (js : List Job) → All P js → All P (sort_by before js)
  unfolding sort_by
  All-sort_by before [] a = tt
  All-sort_by before (j ∷ js) a =
      All-insert_by before j (sort_by before js) a.0 (All-sort_by before js a.1)

  All-take : (n : ℕ) (js : List Job) → All P js → All P (take n js)
  All-take zero js a = tt
  All-take (suc n) [] a = tt
  All-take (suc n) (j ∷ js) a = (a.0, All-take n js a.1)

  pub All-cut : (limit : ℤ) (js : List Job) → All P js → All P (cut limit js).0
  unfolding cut
  All-cut (pos zero) js a = a
  All-cut (pos (suc n)) js a = All-take (suc n) js a
  All-cut (negsuc n) js a = a

module _ (before : Job → Job → Bool) (k : Job) where
  Memᴰ-insert_by_new : (js : List Job) → Memᴰ k (insert_by before k js)
  unfolding insert_by
  Memᴰ-insert_by_new [] = Memᴰ.head refl
  Memᴰ-insert_by_new (j ∷ js) = elim (Bool-cases (before j k)) [
    | inl e ↦ rw (e, insert_by) (Memᴰ.tail (Memᴰ-insert_by_new js))
    | inr e ↦ rw (e, insert_by) (Memᴰ.head refl)
  ]

  Memᴰ-insert_by : (i : Job) (js : List Job) → Memᴰ k js → Memᴰ k (insert_by before i js)
  unfolding insert_by
  Memᴰ-insert_by i [] m = Memᴰ.tail m
  Memᴰ-insert_by i (j ∷ js) m = elim (Bool-cases (before j i)) [
    | inl e ↦
        rw (e, insert_by)
          (elim m [ Memᴰ.head q ↦ Memᴰ.head q | Memᴰ.tail r ↦ Memᴰ.tail (Memᴰ-insert_by i js r) ])
    | inr e ↦ rw (e, insert_by) (Memᴰ.tail m)
  ]

  pub Memᴰ-sort_by : (js : List Job) → Memᴰ k js → Memᴰ k (sort_by before js)
  unfolding sort_by
  Memᴰ-sort_by [] m = elim m [ ]
  Memᴰ-sort_by (j ∷ js) (Memᴰ.head q) =
      subst (λ i. Memᴰ k (insert_by before i (sort_by before js))) q
        (Memᴰ-insert_by_new (sort_by before js))
  Memᴰ-sort_by (j ∷ js) (Memᴰ.tail r) = Memᴰ-insert_by j (sort_by before js) (Memᴰ-sort_by js r)

pub Memᴰ-filter_if :
    (p : Job → Bool) (k : Job) (js : List Job) → Memᴰ k js → p k ≡ true → Memᴰ k (filter_if p js)
Memᴰ-filter_if p k [] m h = elim m [ ]
Memᴰ-filter_if p k (j ∷ js) (Memᴰ.head q) h =
    let passes : p j ≡ true = subst (λ i. p i ≡ true) q h in rw passes (Memᴰ.head q)
Memᴰ-filter_if p k (j ∷ js) (Memᴰ.tail r) h = elim (Bool-cases (p j)) [
  | inl e ↦ rw e (Memᴰ.tail (Memᴰ-filter_if p k js r h))
  | inr e ↦ rw e (Memᴰ-filter_if p k js r h)
]

length-take-le : (n : ℕ) (js : List Job) → length (take n js) ≤ n
length-take-le zero js = omega arith
length-take-le (suc n) [] = omega arith
length-take-le (suc n) (j ∷ js) = omega (arith, length-take-le n js)

pub length-cut :
    (limit : ℤ) (js : List Job) (n : ℕ) → limit ≡ pos (suc n) → length (cut limit js).0 ≤ suc n
unfolding cut
length-cut (pos zero) js n e = absurd (ground arith)
length-cut (pos (suc k)) js n e = ground (arith, length-take-le (suc k) js)
length-cut (negsuc k) js n e = absurd (ground arith)

Memᴰ-take :
    (k : Job) (n : ℕ) (js : List Job)
    → Memᴰ k js
    → Memᴰ k (take n js) ⊎ (Memᴰ k (drop n js) × (length (take n js) ≡ n))
Memᴰ-take k zero js m = inr (m, refl)
Memᴰ-take k (suc n) [] m = elim m [ ]
Memᴰ-take k (suc n) (j ∷ js) (Memᴰ.head q) = inl (Memᴰ.head q)
Memᴰ-take k (suc n) (j ∷ js) (Memᴰ.tail r) = elim (Memᴰ-take k n js r) [
  | inl here ↦ inl (Memᴰ.tail here)
  | inr (rest, full) ↦ inr (rest, ap suc full)
]

pub Memᴰ-cut :
    (k : Job) (limit : ℤ) (js : List Job)
    → Memᴰ k js
    → Memᴰ k (cut limit js).0 ⊎ (Memᴰ k (cut limit js).1 × IsFull limit (cut limit js).0)
unfolding cut
Memᴰ-cut k (pos zero) js m = inl m
Memᴰ-cut k (pos (suc n)) js m = elim (Memᴰ-take k (suc n) js m) [
  | inl here ↦ inl here
  | inr (rest, full) ↦ inr (rest, (n, refl, full))
]
Memᴰ-cut k (negsuc n) js m = inl m

module _ (before : Job → Job → Bool) where
  All-of_none_precedes :
      (j : Job) (ks : List Job)
      → none_precedes before ks j ≡ true
      → All (λ k. before k j ≡ false) ks
  unfolding none_precedes
  All-of_none_precedes j [] h = tt
  All-of_none_precedes j (k ∷ ks) h = (ground arith, All-of_none_precedes j ks (and_right _ _ h))

  pub SortedBy-of : (js : List Job) → in_order before js ≡ true → SortedBy before js
  unfolding in_order
  SortedBy-of [] h = tt
  SortedBy-of (j ∷ js) h =
      (All-of_none_precedes j js (and_left _ _ h), SortedBy-of js (and_right _ _ h))

  All-of_precedes_none :
      (k : Job) (js : List Job)
      → precedes_none before k js ≡ true
      → All (λ j. before k j ≡ false) js
  unfolding precedes_none
  All-of_precedes_none k [] h = tt
  All-of_precedes_none k (j ∷ js) h = (ground arith, All-of_precedes_none k js (and_right _ _ h))

  pub left_after :
      (k : Job) (page left : List Job)
      → all_after before page left ≡ true
      → Memᴰ k left
      → All (λ j. before k j ≡ false) page
  unfolding all_after
  left_after k page [] h m = elim m [ ]
  left_after k page (l ∷ ls) h (Memᴰ.head q) = rw q (All-of_precedes_none l page (and_left _ _ h))
  left_after k page (l ∷ ls) h (Memᴰ.tail r) = left_after k page ls (and_right _ _ h) r
