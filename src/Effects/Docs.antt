-- ===== src/Effects/Docs.antt =====
-- The documents of the jobs collection as a list, and what single commands do to it.
use high_scale_job_scheduler.Prelude.{
  ◌≡◌, ◌≢◌, refl, sym, ◌∙◌, String, Bool, true, false, List, [], ◌∷◌, All, arith, Option, none,
  some, if◌then◌else◌, ◌==◌, subst, ap, Bool-cases, inl, inr, ◌⊎◌,
}
use mathlib.Core.List.{Memᴰ}
use mathlib.Core.Option
use high_scale_job_scheduler.Models.{Job, ObjectId}

-- `Touched p g j xs ys`: `ys` is `xs` with one occurrence of `j`, which passes `p`, replaced by `g j`.
pub data Touched (p : Job → Bool) (g : Job → Job) (j : Job) : List Job → List Job → Type 0 where
  here : {xs : List Job} → p j ≡ true → Touched p g j (j ∷ xs) (g j ∷ xs)
  there : {xs ys : List Job} (x : Job) → Touched p g j xs ys → Touched p g j (x ∷ xs) (x ∷ ys)

-- `Partly p g xs ys`: in `ys` any of the jobs of `xs` that pass `p` are replaced by their `g`.
pub data Partly (p : Job → Bool) (g : Job → Job) : List Job → List Job → Type 0 where
  done : Partly p g [] []
  keep : {xs ys : List Job} (x : Job) → Partly p g xs ys → Partly p g (x ∷ xs) (x ∷ ys)
  change :
      {xs ys : List Job} (x : Job) → p x ≡ true → Partly p g xs ys → Partly p g (x ∷ xs) (g x ∷ ys)

-- Every job that passes is replaced.
abbrev pub change_all : (Job → Bool) → (Job → Job) → List Job → List Job
change_all p g [] = []
change_all p g (x ∷ xs) = (if p x then g x else x) ∷ change_all p g xs

pub Partly-refl : (p : Job → Bool) (g : Job → Job) (xs : List Job) → Partly p g xs xs
Partly-refl p g [] = done
Partly-refl p g (x ∷ xs) = keep x (Partly-refl p g xs)

pub Touched-Partly :
    {p : Job → Bool} {g : Job → Job} {j : Job} {xs ys : List Job}
    → Touched p g j xs ys
    → Partly p g xs ys
Touched-Partly (here {xs} h) = change _ h (Partly-refl _ _ xs)
Touched-Partly (there x t) = keep x (Touched-Partly t)

abbrev pub FreshId : ObjectId → List Job → Type 0
FreshId i xs = All (λ j. j.id ≢ i) xs

abbrev pub FreshKey : String → List Job → Type 0
FreshKey k xs = All (λ j. j.idempotency_key ≢ k) xs

abbrev pub UniqueIds : List Job → Type 0
UniqueIds [] = Unit
UniqueIds (x ∷ xs) = FreshId x.id xs × UniqueIds xs

abbrev pub UniqueKeys : List Job → Type 0
UniqueKeys [] = Unit
UniqueKeys (x ∷ xs) = FreshKey x.idempotency_key xs × UniqueKeys xs

abbrev pub NoneOf : (Job → Bool) → List Job → Type 0
NoneOf p xs = All (λ j. p j ≡ false) xs

-- The document with an id.
abbrev pub doc : ObjectId → List Job → Option Job
doc i [] = none
doc i (x ∷ xs) = if x.id == i then some x else doc i xs

pub Touched-All {κ} :
    {p : Job → Bool} {g : Job → Job} {j : Job} {xs ys : List Job} (P : Job → Type κ)
    → Touched p g j xs ys
    → All P xs
    → P j
Touched-All P (here h) a = a.0
Touched-All P (there x t) a = Touched-All P t a.1

pub Touched-passes :
    {p : Job → Bool} {g : Job → Job} {j : Job} {xs ys : List Job} → Touched p g j xs ys → p j ≡ true
Touched-passes (here h) = h
Touched-passes (there x t) = Touched-passes t

pub Memᴰ-All {κ} : {j : Job} {xs : List Job} (P : Job → Type κ) → Memᴰ j xs → All P xs → P j
Memᴰ-All P (Memᴰ.head e) a = rw e a.0
Memᴰ-All P (Memᴰ.tail m) a = Memᴰ-All P m a.1

-- An update that keeps the ids changes the document with one id, and no other.
module _ {p : Job → Bool} {g : Job → Job} (keeps : (k : Job) → (g k).id ≡ k.id) where
  pub doc-Touched :
      {j : Job} {xs ys : List Job} (i : ObjectId)
      → Touched p g j xs ys
      → UniqueIds xs
      → doc i ys ≡ (if j.id == i then some (g j) else doc i xs)
  doc-Touched {j} i (here {xs} h) u = ground (arith, keeps j)
  doc-Touched {j} i (there {xs} {ys} x t) u =
      ground (arith, doc-Touched i t u.1, Touched-All (λ k. k.id ≢ x.id) t u.0)

  pub doc-Touched_before :
      {j : Job} {xs ys : List Job} → Touched p g j xs ys → UniqueIds xs → doc j.id xs ≡ some j
  doc-Touched_before {j} (here h) u = ground arith
  doc-Touched_before {j} (there x t) u =
      ground (arith, doc-Touched_before t u.1, Touched-All (λ k. k.id ≢ x.id) t u.0)

  pub Partly-FreshId :
      (i : ObjectId) {xs ys : List Job} → Partly p g xs ys → FreshId i xs → FreshId i ys
  Partly-FreshId i done f = tt
  Partly-FreshId i (keep x t) f = (f.0, Partly-FreshId i t f.1)
  Partly-FreshId i (change x h t) f = ((λ e. f.0 (sym (keeps x) ∙ e)), Partly-FreshId i t f.1)

  pub Partly-UniqueIds : {xs ys : List Job} → Partly p g xs ys → UniqueIds xs → UniqueIds ys
  Partly-UniqueIds done u = tt
  Partly-UniqueIds (keep x t) u = (Partly-FreshId x.id t u.0, Partly-UniqueIds t u.1)
  Partly-UniqueIds (change x h t) u =
      (rw (keeps x) (Partly-FreshId x.id t u.0), Partly-UniqueIds t u.1)

module _ {p : Job → Bool} {g : Job → Job}
    (keeps : (k : Job) → (g k).idempotency_key ≡ k.idempotency_key) where
  pub Partly-FreshKey :
      (i : String) {xs ys : List Job} → Partly p g xs ys → FreshKey i xs → FreshKey i ys
  Partly-FreshKey i done f = tt
  Partly-FreshKey i (keep x t) f = (f.0, Partly-FreshKey i t f.1)
  Partly-FreshKey i (change x h t) f = ((λ e. f.0 (sym (keeps x) ∙ e)), Partly-FreshKey i t f.1)

  pub Partly-UniqueKeys : {xs ys : List Job} → Partly p g xs ys → UniqueKeys xs → UniqueKeys ys
  Partly-UniqueKeys done u = tt
  Partly-UniqueKeys (keep x t) u =
      (Partly-FreshKey x.idempotency_key t u.0, Partly-UniqueKeys t u.1)
  Partly-UniqueKeys (change x h t) u =
      (rw (keeps x) (Partly-FreshKey x.idempotency_key t u.0), Partly-UniqueKeys t u.1)

pub Partly-All {κ} :
    {p : Job → Bool} {g : Job → Job} (P : Job → Type κ)
    → ((k : Job) → p k ≡ true → P k → P (g k))
    → {xs ys : List Job} → Partly p g xs ys
    → All P xs
    → All P ys
Partly-All P f done a = tt
Partly-All P f (keep x t) a = (a.0, Partly-All P f t a.1)
Partly-All P f (change x h t) a = (f x h a.0, Partly-All P f t a.1)

pub doc-Memᴰ : {j : Job} {xs : List Job} → Memᴰ j xs → UniqueIds xs → doc j.id xs ≡ some j
doc-Memᴰ {j} (Memᴰ.head e) u = rw e (ground arith)
doc-Memᴰ {j} (Memᴰ.tail {x} m) u = ground (arith, doc-Memᴰ m u.1, Memᴰ-All (λ k. k.id ≢ x.id) m u.0)

pub Memᴰ-doc : (i : ObjectId) (j : Job) (xs : List Job) → doc i xs ≡ some j → Memᴰ j xs
Memᴰ-doc i j [] h = absurd (ground arith)
Memᴰ-doc i j (x ∷ xs) h = elim (Bool-cases (x.id == i)) [
  | inl e ↦ Memᴰ.head (cc (rw e at h))
  | inr e ↦ Memᴰ.tail (Memᴰ-doc i j xs (rw e at h))
]

pub doc-All {κ} :
    (P : Job → Type κ) (i : ObjectId) (j : Job) (xs : List Job) → All P xs → doc i xs ≡ some j → P j
doc-All P i j xs a h = Memᴰ-All P (Memᴰ-doc i j xs h) a

pub doc-id : (i : ObjectId) (j : Job) (xs : List Job) → doc i xs ≡ some j → j.id ≡ i
doc-id i j [] h = ground arith
doc-id i j (x ∷ xs) h = ground (arith, doc-id i j xs)

pub doc-change_all :
    (p : Job → Bool) (g : Job → Job) (keeps : (k : Job) → (g k).id ≡ k.id) (i : ObjectId)
    (xs : List Job)
    → doc i (change_all p g xs) ≡ Option.map (λ j. if p j then g j else j) (doc i xs)
doc-change_all p g keeps i [] = refl
doc-change_all p g keeps i (x ∷ xs) = ground (arith, keeps x, doc-change_all p g keeps i xs)

-- A document under some of the changes stays as it was, or passed and is changed.
pub doc-Partly :
    {p : Job → Bool} {g : Job → Job} (keeps : (k : Job) → (g k).id ≡ k.id) (i : ObjectId) (j : Job)
    {xs ys : List Job}
    → Partly p g xs ys
    → doc i xs ≡ some j
    → (doc i ys ≡ some j) ⊎ ((p j ≡ true) × (doc i ys ≡ some (g j)))
doc-Partly keeps i j done h = absurd (ground arith)
doc-Partly keeps i j (keep x t) h = elim (Bool-cases (x.id == i)) [
  | inl e ↦ inl (rw e (rw e at h))
  | inr e ↦ rw e (doc-Partly keeps i j t (rw e at h))
]
doc-Partly {p} {g} keeps i j (change x px t) h = elim (Bool-cases (x.id == i)) [
  | inl e ↦
      let same : x ≡ j = cc (rw e at h) in
      inr (subst (λ k. p k ≡ true) same px, ground (arith, keeps x, ap g same))
  | inr e ↦ rw (keeps x, e) (doc-Partly keeps i j t (rw e at h))
]

pub doc-Partly-none :
    {p : Job → Bool} {g : Job → Job} (keeps : (k : Job) → (g k).id ≡ k.id) (i : ObjectId)
    {xs ys : List Job}
    → Partly p g xs ys
    → doc i xs ≡ none
    → doc i ys ≡ none
doc-Partly-none keeps i done h = refl
doc-Partly-none keeps i (keep x t) h = ground (arith, doc-Partly-none keeps i t)
doc-Partly-none keeps i (change x px t) h = ground (arith, doc-Partly-none keeps i t, keeps x)

pub Partly-change_all :
    (p : Job → Bool) (g : Job → Job) (xs : List Job) → Partly p g xs (change_all p g xs)
Partly-change_all p g [] = done
Partly-change_all p g (x ∷ xs) = elim (Bool-cases (p x)) [
  | inl e ↦ rw e (change x e (Partly-change_all p g xs))
  | inr e ↦ rw e (keep x (Partly-change_all p g xs))
]
