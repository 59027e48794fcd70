-- ===== src/Practice/Claim.antt =====
-- What a worker gets from `claim_job`, and that two workers do not get the same job.
use aprendiendo.Base.{
  String, Bool, true, false, ◌&&◌, some, List, [], ◌∷◌, ◌≡◌, ◌≢◌, ◌⊎◌, refl, inl, inr, All, map,
  str_eq, arith, eq_iff, if◌then◌else◌, Bool-cases, Option-cases, ok, keep, All-keep,
}
use mathlib.Core.Path.{subst}
use aprendiendo.Practice.Rows.{
  JobStatus, JobRow, JobWork, Store, Clock, before, find_job_row, is_queued, is_running,
}
use aprendiendo.Practice.Jobs.{
  claim_job, requeue_expired, requeue_row, lease_over, lease_row, lease_seconds, claimable,
  earliest, ready_recording,
}
use aprendiendo.Practice.Invariant.Lookup.{IsUnique, IsUnique-map, find-map}

All-kept : {A : Type 0} (p : A → Bool) (xs : List A) → All (λ x. p x ≡ true) (keep p xs)
All-kept p [] = tt
All-kept p (x ∷ xs) = elim (Bool-cases (p x)) [
  | inl in' ↦ rw in' (in', All-kept p xs)
  | inr out ↦ rw out (All-kept p xs)
]

-- The chosen row is one of the rows.
earliest-All {ℓ} :
    (P : JobRow → Type ℓ) (js : List JobRow) {j : JobRow} → All P js → earliest js ≡ some j → P j
unfolding earliest
earliest-All P [] a h = absurd (cc)
earliest-All P (k ∷ js) {j} a h = elim (Option-cases (earliest js)) [
  | inl nothing ↦ subst P (ground (arith, nothing, h)) a.0
  | inr (m, chosen) ↦ elim (Bool-cases (before m.created_at k.created_at)) [
    | inl sooner ↦ subst P (ground (arith, chosen, sooner, h)) (earliest-All P js a.1 chosen)
    | inr later ↦ subst P (ground (arith, chosen, later, h)) a.0
  ]
]

-- With unique identifiers each row is found under its own.
All-found :
    (js all_rows : List JobRow)
    → ((j : JobRow) → find_job_row j.id js ≡ some j → find_job_row j.id all_rows ≡ some j)
    → IsUnique js
    → All (λ j. find_job_row j.id all_rows ≡ some j) js
All-found [] all_rows up u = tt
All-found (j ∷ js) all_rows up u = (
  up j (ground (arith, eq_iff j.id j.id)),
  All-found js all_rows (λ k h. up k (ground (arith, eq_iff j.id k.id, u.0, h))) u.1,
)

-- What the first statement of `claim_job` makes of each row.
abbrev requeued : Clock → JobRow → JobRow
requeued clock j = if lease_over (clock.now 1) j then requeue_row (clock.now 0) j else j

-- What `claim_row` makes of each row.
abbrev take_row : Clock → String → JobRow → JobRow
take_row clock job_id j =
    if str_eq j.id job_id && is_queued j.status
    then lease_row (clock.after 2 lease_seconds) (clock.now 3) j
    else j

module _ (clock : Clock) where
  -- The job is running, and its lease was over at the second reading of the clock.
  abbrev pub HadLease : JobRow → Type 0
  HadLease was =
      (was.status ≡ JobStatus.running)
      × ((until : String) × (was.lease_until ≡ some until) × (before until (clock.now 1) ≡ true))

  is_queued-eq : (status : JobStatus) → is_queued status ≡ true → status ≡ JobStatus.queued
  is_queued-eq JobStatus.queued h = refl
  is_queued-eq JobStatus.running h = cc
  is_queued-eq JobStatus.completed h = cc
  is_queued-eq JobStatus.failed h = cc
  is_queued-eq JobStatus.cancelled h = cc

  is_running-eq : (status : JobStatus) → is_running status ≡ true → status ≡ JobStatus.running
  is_running-eq JobStatus.running h = refl
  is_running-eq JobStatus.queued h = cc
  is_running-eq JobStatus.completed h = cc
  is_running-eq JobStatus.failed h = cc
  is_running-eq JobStatus.cancelled h = cc

  lease_over-HadLease : (was : JobRow) → lease_over (clock.now 1) was ≡ true → HadLease was
  lease_over-HadLease was h = elim (Option-cases was.lease_until) [
    | inl nothing ↦ absurd (ground (arith, nothing, h))
    | inr (until, leased) ↦
        (is_running-eq was.status (ground arith), (until, leased, ground (arith, leased)))
  ]

  claimable-requeued :
      (was : JobRow)
      → claimable (requeued clock was) ≡ true
      → (was.cancel_requested ≡ false) × ((was.status ≡ JobStatus.queued) ⊎ HadLease was)
  claimable-requeued was h = elim (Bool-cases (lease_over (clock.now 1) was)) [
    | inl over ↦ (ground arith, inr (lease_over-HadLease was over))
    | inr kept ↦ (ground (arith, kept, h), inl (is_queued-eq was.status (ground (arith, kept, h))))
  ]

module _ {Usd : Type 0} (clock : Clock) (s : Store Usd) (unique : IsUnique s.jobs) where
  -- The job that a worker gets is found under its identifier among the requeued rows, and waits.
  claim_job-chosen :
      {work : JobWork}
      → (claim_job clock s).0 ≡ ok (some work)
      → (job : JobRow) × (job.id ≡ work.id)
        × (find_job_row work.id (requeue_expired clock s).jobs ≡ some job)
        × (claimable job ≡ true)
        × ((claim_job clock s).1.jobs ≡ map (take_row clock job.id) (requeue_expired clock s).jobs)
  unfolding claim_job
  claim_job-chosen {work} h =
      let rows = (requeue_expired clock s).jobs in
      elim (Option-cases (earliest (keep claimable rows))) [
        | inl nothing ↦ absurd (ground (arith, nothing, h))
        | inr (job, chosen) ↦ elim (Option-cases (ready_recording job.recording_id s.recordings)) [
          | inl missing ↦ absurd (ground (arith, chosen, missing, h))
          | inr (recording, found) ↦
              let same : job.id ≡ work.id = ground (arith, chosen, found, h) in
              let unique' : IsUnique rows = IsUnique-map _ (λ j. ground arith) s.jobs unique in
              let listed = All-found rows rows (λ j e. e) unique' in
              let all_found = All-keep _ claimable rows listed in
              (
                job,
                same,
                rw (← same) (earliest-All _ (keep claimable rows) all_found chosen),
                earliest-All _ (keep claimable rows) (All-kept claimable rows) chosen,
                ground (arith, chosen, found),
              )
        ]
      ]

  -- Where job identifiers are unique, a worker gets only a job that was queued, or running under a
  -- lease that is over, and that nobody had asked to cancel; it then holds it: the job is running
  -- under a lease of ten minutes, and no request to cancel it is on record.
  pub claim_job-held :
      {work : JobWork}
      → (claim_job clock s).0 ≡ ok (some work)
      → (job : JobRow) × (find_job_row work.id (claim_job clock s).1.jobs ≡ some job)
        × (job.status ≡ JobStatus.running)
        × (job.cancel_requested ≡ false)
        × (job.lease_until ≡ some (clock.after 2 lease_seconds))
        × ((was : JobRow) × (find_job_row work.id s.jobs ≡ some was)
            × (was.cancel_requested ≡ false)
            × ((was.status ≡ JobStatus.queued) ⊎ HadLease clock was))
  unfolding requeue_expired
  claim_job-held {work} h =
      let (job, same, found, waits, jobs) = claim_job-chosen h in
      let requeue = find-map (requeued clock) (λ j. ground arith) work.id s.jobs in
      (
        take_row clock job.id job,
        rw jobs (
            rw (
              find-map (take_row clock job.id) (λ j. ground arith) work.id
                  (requeue_expired clock s).jobs,
              found,
            )),
        ground (arith, eq_iff job.id job.id),
        ground (arith, eq_iff job.id job.id),
        ground (arith, eq_iff job.id job.id),
        elim (Option-cases (find_job_row work.id s.jobs)) [
          | inl nothing ↦ absurd (ground (arith, found, requeue, nothing))
          | inr (was, held) ↦
              let same' : job ≡ requeued clock was = ground (arith, found, requeue, held) in
              let waits' : claimable (requeued clock was) ≡ true = rw (← same') waits in
              let (open', before') = claimable-requeued clock was waits' in
              (was, held, open', before')
        ],
      )

-- Where job identifiers are unique, two workers that claim one after the other do not get the same
-- job, as long as the lease of the first is not over when the second claims.
pub claim_job-claim_job :
    {Usd : Type 0} (clock clock' : Clock) (s : Store Usd) (unique : IsUnique s.jobs)
    {work work' : JobWork}
    → (claim_job clock s).0 ≡ ok (some work)
    → (claim_job clock' (claim_job clock s).1).0 ≡ ok (some work')
    → before (clock.after 2 lease_seconds) (clock'.now 1) ≡ false
    → work'.id ≢ work.id
unfolding requeue_expired
claim_job-claim_job clock clock' s unique {work} {work'} h h' lease same =
    let t = (claim_job clock s).1 in
    let (_, _, _, _, jobs) = claim_job-chosen clock s unique h in
    let unique' : IsUnique t.jobs = rw jobs (
      IsUnique-map _ (λ j. ground arith) (requeue_expired clock s).jobs
        (IsUnique-map _ (λ j. ground arith) s.jobs unique)) in
    let (job, found, running, open', until, _) = claim_job-held clock s unique h in
    let (job', same', found', waits, _) = claim_job-chosen clock' t unique' h' in
    let again : find_job_row work.id (requeue_expired clock' t).jobs ≡ some job' =
      subst (λ x. find_job_row x (requeue_expired clock' t).jobs ≡ some job') same found' in
    ground (
      arith,
      again,
      running,
      open',
      until,
      found,
      waits,
      find-map (requeued clock') (λ j. ground arith) work.id t.jobs,
    )
