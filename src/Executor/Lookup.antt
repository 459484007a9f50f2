-- ===== src/Executor/Lookup.antt =====
-- internal/executor/registry.go: `Get` after `Register`, and properties of all handlers.
use high_scale_job_scheduler.Prelude.{
  ◌≡◌, refl, arith, some, String, List, [], ◌∷◌, Bool-cases, inl, inr, Option-cases, subst, ◌∙◌,
  All, if◌then◌else◌, str_eq,
}
use text.Mathlib.TextEquality.{eq_iff}
use high_scale_job_scheduler.Errors.{ok}
use high_scale_job_scheduler.Executor.{Handler, Registry, register, put, find, get}

find-put :
    (key other : String) (h : Handler) (hs : List (String × Handler))
    → find other (put key h hs) ≡ (if str_eq key other then some h else find other hs)
unfolding find put
find-put key other h [] = refl
find-put key other h ((k, g) ∷ hs) =
    ground (arith, eq_iff k key, eq_iff k other, eq_iff key other, find-put key other h hs)

-- `Get` after `Register` answers the new handler for its job type, whatever stood there, and what it
-- answered before for every other.
pub get-register :
    (r : Registry) (key other : String) (h : Handler)
    → get (register r key h) other ≡ (if str_eq key other then ok h else get r other)
unfolding get register
get-register r key other h = elim (Bool-cases (str_eq key other)) [
  | inl e ↦ rw e (rw (find-put key other h r.handlers, e))
  | inr e ↦ rw e (rw (find-put key other h r.handlers, e))
]

module _ {ℓ} (P : Handler → Type ℓ) where
  put-All :
      (key : String) (h : Handler) (hs : List (String × Handler))
      → P h
      → All (λ (entry : String × Handler). P entry.1) hs
      → All (λ (entry : String × Handler). P entry.1) (put key h hs)
  unfolding put
  put-All key h [] p all = (p, tt)
  put-All key h ((k, g) ∷ hs) p all = elim (Bool-cases (str_eq k key)) [
    | inl e ↦ rw e (p, all.1)
    | inr e ↦ rw e (all.0, put-All key h hs p all.1)
  ]

  pub register-All :
      (r : Registry) (key : String) (h : Handler)
      → P h
      → All (λ (entry : String × Handler). P entry.1) r.handlers
      → All (λ (entry : String × Handler). P entry.1) (register r key h).handlers
  unfolding register
  register-All r key h p all = put-All key h r.handlers p all

  find-All :
      (key : String) (h : Handler) (hs : List (String × Handler))
      → All (λ (entry : String × Handler). P entry.1) hs
      → find key hs ≡ some h
      → P h
  unfolding find
  find-All key h [] all e = absurd (cc)
  find-All key h ((k, g) ∷ hs) all e = elim (Bool-cases (str_eq k key)) [
    | inl t ↦ subst P {x = g} {y = h} (cc (rw t at e)) all.0
    | inr f ↦ find-All key h hs all.1 (rw f at e)
  ]

  pub get-All :
      (r : Registry) (key : String) (h : Handler)
      → All (λ (entry : String × Handler). P entry.1) r.handlers
      → get r key ≡ ok h
      → P h
  unfolding get
  get-All r key h all e = elim (Option-cases (find key r.handlers)) [
    | inl missing ↦ absurd (cc (rw missing at e))
    | inr (g, found) ↦ find-All key h r.handlers all (found ∙ cc (rw found at e))
  ]
