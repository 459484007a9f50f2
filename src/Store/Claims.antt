-- ===== src/Store/Claims.antt =====
-- `ClaimDueJobs`: what one claim and a batch of claims do.
use high_scale_job_scheduler.Prelude.{
  ◌≡◌, ◌≢◌, sym, ◌∙◌, subst, true, false, arith, some, ◌≤ℤ◌, ◌<ℤ◌, List, [], ◌∷◌, All,
}
use high_scale_job_scheduler.Models.{Job, ObjectId, Time, pending, queued}
use high_scale_job_scheduler.Effects.Docs.{UniqueIds, doc, doc-All}
use high_scale_job_scheduler.Effects.World.{View, Codec, stored, IsFirst}
use high_scale_job_scheduler.Store.{is_due, set_queued, claims_before}
use high_scale_job_scheduler.Store.Update.{Puts}
use high_scale_job_scheduler.Store.Failure.{SameWork}

-- `j` goes first: it has the higher priority, or the same and the earlier time.
abbrev pub InOrder : Job → Job → Type 0
InOrder j k =
    (k.priority ≤ℤ j.priority) × (j.priority ≤ℤ k.priority → j.scheduled_at ≤ℤ k.scheduled_at)

abbrev pub IsOrdered : List Job → Type 0
IsOrdered [] = Unit
IsOrdered (j ∷ js) = All (InOrder j) js × IsOrdered js

pub InOrder-of_not_before : (k j : Job) → claims_before k j ≡ false → InOrder j k
InOrder-of_not_before k j h = ground arith

pub is_due_of :
    (j : Job) (now : Time) → j.status ≡ pending → j.scheduled_at ≤ℤ now → is_due now j ≡ true
is_due_of j now p d = rw p (ground arith)

-- Neither pending nor due: no claim takes the job.
abbrev pub IsNotDue : Time → Job → Type 0
IsNotDue now j = j.status ≡ pending → now <ℤ j.scheduled_at

pub IsNotDue-of : (now : Time) (j : Job) → is_due now j ≡ false → IsNotDue now j
IsNotDue-of now j h p = ground arith

module _ (x : Codec) (now : Time) where
  -- The claim of the first of the due jobs.
  pub record Claim (j : Job) (s s' : View) : Type 0 where
    pub before : Job
    pub at : Time
    pub found : doc before.id s.docs ≡ some before
    pub due : is_due now before ≡ true
    pub first : IsFirst (is_due now) claims_before before s.docs
    pub result : j ≡ stored x (set_queued at before)
    pub puts : Puts before.id j s s'

  -- Claims one after the other, in the order of the list.
  pub data Claims : List Job → View → View → Type 0 where
    nil : {s s' : View} → s' ≡ s → Claims [] s s'
    cons :
        {j : Job} {js : List Job} {s t u : View} → Claim j s t → Claims js t u → Claims (j ∷ js) s u

  -- A claimed job is a due document of `s`, queued.
  pub record ClaimedFrom (s : View) (j : Job) : Type 0 where
    pub before : Job
    pub found : doc j.id s.docs ≡ some before
    pub was_pending : before.status ≡ pending
    pub was_due : before.scheduled_at ≤ℤ now
    pub is_queued : j.status ≡ queued
    pub same_attempts : j.attempts ≡ before.attempts
    pub same_schedule : j.scheduled_at ≡ x.datetime before.scheduled_at
    pub same_work : SameWork before j

  pub Claim-ClaimedFrom : {j : Job} {s s' : View} → Claim j s s' → ClaimedFrom s j
  Claim-ClaimedFrom {j} {s} c = record {
    before = c.before;
    found = rw c.result c.found;
    was_pending = ground (arith, c.due);
    was_due = ground (arith, c.due);
    is_queued = ground (arith, c.result);
    same_attempts = ground (arith, c.result);
    same_schedule = ground (arith, c.result);
    same_work = ground (arith, c.result);
  }

  pub Claim-id : {j : Job} {s s' : View} (c : Claim j s s') → j.id ≡ c.before.id
  Claim-id c = ground (arith, c.result)

  pub Claim-avoid :
      {j : Job} {s s' : View} (i : ObjectId) (d : Job)
      → Claim j s s'
      → doc i s.docs ≡ some d
      → d.status ≡ queued
      → j.id ≢ i
  Claim-avoid {j} {s} i d c h q e =
      let f : doc i s.docs ≡ some c.before =
        subst (λ k. doc k s.docs ≡ some c.before) (sym (Claim-id c) ∙ e) c.found in
      ground (arith, f, h, c.due)

  pub Claim-frame :
      {j : Job} {s s' : View} (i : ObjectId)
      → Claim j s s'
      → j.id ≢ i
      → doc i s'.docs ≡ doc i s.docs
  Claim-frame i c h = c.puts.frame i (λ e. h (Claim-id c ∙ sym e))

  pub Claim-at : {j : Job} {s s' : View} (c : Claim j s s') → doc j.id s'.docs ≡ some j
  Claim-at {j} {s'} c = subst (λ i. doc i s'.docs ≡ some j) (sym (Claim-id c)) c.puts.at

  -- A document that is queued is not claimed.
  Claims-avoid :
      {js : List Job} {s s' : View} (i : ObjectId) (d : Job)
      → Claims js s s'
      → doc i s.docs ≡ some d
      → d.status ≡ queued
      → All (λ j. j.id ≢ i) js
  Claims-avoid i d (nil e) h q = tt
  Claims-avoid i d (cons c cs) h q =
      (Claim-avoid i d c h q, Claims-avoid i d cs (Claim-frame i c (Claim-avoid i d c h q) ∙ h) q)

  -- What was claimed later is distinct from a job claimed first.
  Claims-later :
      {j : Job} {js : List Job} {s t u : View}
      → Claim j s t
      → Claims js t u
      → All (λ k. k.id ≢ j.id) js
  Claims-later {j} c cs = Claims-avoid j.id j cs (Claim-at c) (Claim-ClaimedFrom c).is_queued

  pub Claims-UniqueIds : {js : List Job} {s s' : View} → Claims js s s' → UniqueIds js
  Claims-UniqueIds (nil e) = tt
  Claims-UniqueIds (cons c cs) = (Claims-later c cs, Claims-UniqueIds cs)

  -- Documents that are not among the claimed jobs stay as they were.
  pub Claims-frame :
      {js : List Job} {s s' : View} (i : ObjectId)
      → Claims js s s'
      → All (λ j. j.id ≢ i) js
      → doc i s'.docs ≡ doc i s.docs
  Claims-frame i (nil e) a = rw e
  Claims-frame i (cons c cs) a = Claims-frame i cs a.1 ∙ Claim-frame i c a.0

  -- The claimed jobs are in the collection as they were returned.
  pub Claims-at :
      {js : List Job} {s s' : View} → Claims js s s' → All (λ j. doc j.id s'.docs ≡ some j) js
  Claims-at (nil e) = tt
  Claims-at (cons {j} c cs) = (Claims-frame j.id cs (Claims-later c cs) ∙ Claim-at c, Claims-at cs)

  ClaimedFrom-before :
      {j : Job} {s t : View} (k : Job)
      → Claim j s t
      → k.id ≢ j.id
      → ClaimedFrom t k
      → ClaimedFrom s k
  ClaimedFrom-before k c h f = record {
    before = f.before;
    found = sym (Claim-frame k.id c (λ e. h (sym e))) ∙ f.found;
    was_pending = f.was_pending;
    was_due = f.was_due;
    is_queued = f.is_queued;
    same_attempts = f.same_attempts;
    same_schedule = f.same_schedule;
    same_work = f.same_work;
  }

  All-before :
      {j : Job} {s t : View} (ks : List Job)
      → Claim j s t
      → All (λ k. k.id ≢ j.id) ks
      → All (ClaimedFrom t) ks
      → All (ClaimedFrom s) ks
  All-before [] c d a = tt
  All-before (k ∷ ks) c d a = (ClaimedFrom-before k c d.0 a.0, All-before ks c d.1 a.1)

  -- Every claimed job was due when the batch began.
  pub Claims-ClaimedFrom : {js : List Job} {s s' : View} → Claims js s s' → All (ClaimedFrom s) js
  Claims-ClaimedFrom (nil e) = tt
  Claims-ClaimedFrom (cons {js} c cs) =
      (Claim-ClaimedFrom c, All-before js c (Claims-later c cs) (Claims-ClaimedFrom cs))

  -- A job claimed first comes before those that were due with it.
  Claim-InOrder : {j : Job} {s t : View} (k : Job) → Claim j s t → ClaimedFrom s k → InOrder j k
  Claim-InOrder {j} {s} k c f =
      let o : InOrder c.before f.before = InOrder-of_not_before f.before c.before (
        doc-All (λ d. is_due now d ≡ true → claims_before d c.before ≡ false) k.id f.before s.docs
          c.first f.found (is_due_of f.before now f.was_pending f.was_due)) in
      let later = λ (h : c.before.priority ≤ℤ f.before.priority).
        x.datetime_mono c.before.scheduled_at f.before.scheduled_at (o.1 h) in
      (
        (rw (c.result, f.same_work.priority) o.0),
        (λ h.
            rw (c.result, f.same_schedule)
              (later (rw (← f.same_work.priority) (rw c.result at h)))),
      )

  All-InOrder :
      {j : Job} {s t : View} (ks : List Job)
      → Claim j s t
      → All (ClaimedFrom s) ks
      → All (InOrder j) ks
  All-InOrder [] c a = tt
  All-InOrder (k ∷ ks) c a = (Claim-InOrder k c a.0, All-InOrder ks c a.1)

  -- The batch is in the order of claiming.
  pub Claims-IsOrdered : {js : List Job} {s s' : View} → Claims js s s' → IsOrdered js
  Claims-IsOrdered (nil e) = tt
  Claims-IsOrdered (cons {js} c cs) = (
    All-InOrder js c (All-before js c (Claims-later c cs) (Claims-ClaimedFrom cs)),
    Claims-IsOrdered cs,
  )
