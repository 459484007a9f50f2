-- ===== src/Effects/Memory/Search.antt =====
-- What the searches of the world in memory find in a list of documents.
use mathlib.Core.List.{Memᴰ}
use mathlib.Core.Option.{some-injective}
use high_scale_job_scheduler.Prelude.{
  ℕ, zero, suc, String, ◌<◌, ◌≡◌, refl, sym, subst, ap, Bool, true, false, List, [], ◌∷◌, none,
  some, str_eq, str_eq→eq, str_eq_refl, filter_if, All, arith, Bool-cases, Option-cases, inl, inr,
}
use high_scale_job_scheduler.Models.{Job, ObjectId}
use high_scale_job_scheduler.Effects.Docs.{
  Touched, here, there, FreshId, FreshKey, UniqueKeys, NoneOf,
}
use high_scale_job_scheduler.Effects.World.{IsFirst}
use high_scale_job_scheduler.Effects.Memory.{
  unary, from_unary, max_id, key_used, keys_unique, first_of_docs, is_first, change_first,
}

pub from_unary-unary : (i : ObjectId) → from_unary (unary i) ≡ i
unfolding from_unary unary
from_unary-unary zero = refl
from_unary-unary (suc n) = ap suc (from_unary-unary n)

pub FreshId-max_id : (i : ℕ) (js : List Job) → max_id js < i → FreshId i js
unfolding max_id
FreshId-max_id i [] h = tt
FreshId-max_id i (j ∷ js) h = ((λ e. ground arith), FreshId-max_id i js (ground arith))

pub FreshKey-of_unused : (k : String) (js : List Job) → key_used k js ≡ false → FreshKey k js
unfolding key_used
FreshKey-of_unused k [] h = tt
FreshKey-of_unused k (j ∷ js) h = (
  (λ e. ground (arith, ap (λ t. str_eq t k) e, str_eq_refl k)),
  FreshKey-of_unused k js (ground arith),
)

pub used_not_fresh : (k : String) (js : List Job) → key_used k js ≡ true → FreshKey k js → ⊥
unfolding key_used
used_not_fresh k [] h f = cc
used_not_fresh k (j ∷ js) h f = elim (Bool-cases (str_eq j.idempotency_key k)) [
  | inl e ↦ f.0 (str_eq→eq j.idempotency_key k e)
  | inr e ↦ used_not_fresh k js (rw e at h) f.1
]

pub UniqueKeys-of : (js : List Job) → keys_unique js ≡ true → UniqueKeys js
unfolding keys_unique
UniqueKeys-of [] h = tt
UniqueKeys-of (j ∷ js) h =
    (FreshKey-of_unused j.idempotency_key js (ground arith), UniqueKeys-of js (ground arith))

pub NoneOf-first : (p : Job → Bool) (js : List Job) → first_of_docs p js ≡ none → NoneOf p js
unfolding first_of_docs
NoneOf-first p [] h = tt
NoneOf-first p (j ∷ js) h = (ground arith, NoneOf-first p js (ground arith))

pub first_passes :
    (p : Job → Bool) (j : Job) (js : List Job)
    → first_of_docs p js ≡ some j
    → Memᴰ j js × (p j ≡ true)
unfolding first_of_docs
first_passes p j [] h = absurd (ground arith)
first_passes p j (k ∷ js) h = elim (Bool-cases (p k)) [
  | inl e ↦
      let same : k ≡ j = cc (rw e at h) in (Memᴰ.head (sym same), subst (λ t. p t ≡ true) same e)
  | inr e ↦ let (m, q) = first_passes p j js (rw e at h) in (Memᴰ.tail m, q)
]

pub IsFirst-of :
    (p : Job → Bool) (before : Job → Job → Bool) (j : Job) (js : List Job)
    → is_first p before j js ≡ true
    → IsFirst p before j js
unfolding is_first
IsFirst-of p before j [] h = tt
IsFirst-of p before j (k ∷ ks) h = ((λ q. ground arith), IsFirst-of p before j ks (ground arith))

pub NoneOf-change :
    (p : Job → Bool) (g : Job → Job) (js : List Job) → change_first p g js ≡ none → NoneOf p js
unfolding change_first
NoneOf-change p g [] h = tt
NoneOf-change p g (j ∷ js) h = elim (Bool-cases (p j)) [
  | inl e ↦ absurd (ground (arith, e))
  | inr e ↦ (e, NoneOf-change p g js (ground (arith, e)))
]

pub Touched-change :
    (p : Job → Bool) (g : Job → Job) (j : Job) (js ks : List Job)
    → change_first p g js ≡ some (j, ks)
    → Touched p g j js ks
unfolding change_first
Touched-change p g j [] ks h = absurd (ground arith)
Touched-change p g j (i ∷ js) ks h = elim (Bool-cases (p i)) [
  | inl e ↦
      let same : ◌≡◌ {A = Job × List Job} (i, g i ∷ js) (j, ks) = some-injective _ _ (rw e at h) in
      subst (λ (r : Job × List Job). Touched p g r.0 (i ∷ js) r.1) same (here e)
  | inr e ↦ elim (Option-cases (change_first p g js)) [
    | inl n ↦ absurd (ground (arith, e, n))
    | inr ((k, ms), q) ↦
        let same : ◌≡◌ {A = Job × List Job} (k, i ∷ ms) (j, ks) =
          some-injective _ _ (ground (arith, e, q)) in
        subst (λ (r : Job × List Job). Touched p g r.0 (i ∷ js) r.1) same
          (there i (Touched-change p g k js ms q))
  ]
]

-- The filtered test holds of a document: the first that passes.
pub Touched-weaken :
    (p q : Job → Bool) (g : Job → Job) {j : Job} {js ks : List Job}
    → ((k : Job) → q k ≡ true → p k ≡ true)
    → Touched q g j js ks
    → Touched p g j js ks
Touched-weaken p q g f (here h) = here (f _ h)
Touched-weaken p q g f (there x t) = there x (Touched-weaken p q g f t)

abbrev pub Listed : (Job → Bool) → List Job → List Job → Type 0
Listed p docs js = All (λ j. Memᴰ j docs × (p j ≡ true)) js

pub All-tail : (p : Job → Bool) (x : Job) (xs js : List Job) → Listed p xs js → Listed p (x ∷ xs) js
All-tail p x xs [] a = tt
All-tail p x xs (j ∷ js) a = ((Memᴰ.tail a.0.0, a.0.1), All-tail p x xs js a.1)

pub filter_if-Listed : (p : Job → Bool) (js : List Job) → Listed p js (filter_if p js)
filter_if-Listed p [] = tt
filter_if-Listed p (j ∷ js) = elim (Bool-cases (p j)) [
  | inl e ↦ rw e ((Memᴰ.head refl, e), All-tail p j js (filter_if p js) (filter_if-Listed p js))
  | inr e ↦ rw e (All-tail p j js (filter_if p js) (filter_if-Listed p js))
]
