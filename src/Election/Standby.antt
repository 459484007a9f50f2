-- ===== src/Election/Standby.antt =====
-- An instance that is not elected leaves the work to others.
use high_scale_job_scheduler.Prelude.{ℕ, zero, suc, ℤ, ◌≡◌, refl, ◌∙◌, true, false}
use high_scale_job_scheduler.Errors.{Error, err}
use high_scale_job_scheduler.Effects.{
  Cmd, Reply, Prog, ret, call, campaign, context_done, time_sleep,
}
use high_scale_job_scheduler.Effects.World.{World, View, Effect, run}
use high_scale_job_scheduler.Election.{LeaderElector, run_as_leader, retry_delay, lead}

-- The campaigns of an elector fail from some state on, as those over a session that ended do.
pub record Unelectable (w : World) (le : LeaderElector) : Type 1 where
  pub Out : w.State → Type 0
  pub stays : (c : Cmd) (s : w.State) → Out s → Out (w.exec c s).1
  pub refused : (s : w.State) → Out s → (e : Error) × ((w.exec (campaign le.node_id) s).0 ≡ err e)

module _ (w : World) (le : LeaderElector) (u : Unelectable w le) where
  open u use {Out, stays, refused}

  abbrev Idle : {A : Type 0} → Prog A → Type 0
  Idle m = (s : w.State) → Out s → w.view (run w m s).1 ≡ w.view s

  Idle-ret : {A : Type 0} (a : A) → Idle (ret a)
  unfolding run
  Idle-ret a s o = refl

  Idle-call :
      {A : Type 0} (c : Cmd) (k : Reply c → Prog A)
      → ((r : Reply c) (s s' : View) → Effect w.codec c r s s' → s' ≡ s)
      → ((r : Reply c) → Idle (k r))
      → Idle (call c k)
  unfolding run
  Idle-call c k quiet h s o =
      h (w.exec c s).0 (w.exec c s).1 (stays c s o)
      ∙ quiet (w.exec c s).0 (w.view s) (w.view (w.exec c s).1) (w.lawful c s)

  Idle-campaign :
      {A : Type 0} (k : Reply (campaign le.node_id) → Prog A)
      → ((e : Error) → Idle (k (err e)))
      → Idle (call (campaign le.node_id) k)
  unfolding run
  Idle-campaign k h s o =
      let (e, q) = refused s o in
      rw (q, run) (h e (w.exec (campaign le.node_id) s).1 (stays (campaign le.node_id) s o))
      ∙ w.lawful (campaign le.node_id) s

  lead-Idle : (terms rounds : ℕ) (batch_size : ℤ) → Idle (lead terms rounds le batch_size)
  unfolding lead run_as_leader
  lead-Idle zero rounds batch_size = Idle-ret false
  lead-Idle (suc terms) rounds batch_size =
      Idle-call context_done _ (λ r s s' e. e)
        (elim [
          | true ↦ Idle-ret true
          | false ↦ Idle-campaign _ (λ e.
              Idle-call context_done _ (λ r s s' e. e)
                (elim [
                  | true ↦ lead-Idle terms rounds batch_size
                  | false ↦
                      Idle-call (time_sleep retry_delay) _ (λ r s s' e. e)
                        (λ _. lead-Idle terms rounds batch_size)
                ]))
        ])

-- A scheduler whose campaigns all fail never leads: however long its loop runs, it claims, dispatches,
-- publishes and counts nothing, and no document changes.
pub lead_unelected :
    (w : World) (le : LeaderElector) (u : Unelectable w le) (s : w.State)
    → u.Out s
    → (terms rounds : ℕ) (batch_size : ℤ)
    → w.view (run w (lead terms rounds le batch_size) s).1 ≡ w.view s
lead_unelected w le u s o terms rounds batch_size = lead-Idle w le u terms rounds batch_size s o
