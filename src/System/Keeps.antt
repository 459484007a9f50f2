-- ===== src/System/Keeps.antt =====
-- Programs whose every command keeps an invariant of the world, whatever other processes do between
-- the commands.
use high_scale_job_scheduler.Effects.{Reply, Prog, ret, call, ◌>>=◌}
use high_scale_job_scheduler.Effects.World.{View, Codec, Effect}

module _ (x : Codec) (I : View → Type 0) where
  -- The result satisfies `Q`; the invariant holds again when a command begins.
  abbrev pub Keeps : {A : Type 0} → Prog A → (A → Type 0) → Type 0
  Keeps (ret a) Q = Q a
  Keeps (call c k) Q = (r : Reply c) (s s' : View) → I s → Effect x c r s s' → I s' × Keeps (k r) Q

  pub Keeps-bind :
      {A B : Type 0} (m : Prog A) (f : A → Prog B) (Q : A → Type 0) (R : B → Type 0)
      → Keeps m Q
      → ((a : A) → Q a → Keeps (f a) R)
      → Keeps (m >>= f) R
  Keeps-bind (ret a) f Q R h g = g a h
  Keeps-bind (call c k) f Q R h g =
      λ r s s' i e. let (i', rest) = h r s s' i e in (i', Keeps-bind (k r) f Q R rest g)
