-- ===== src/Practice/Idempotency.antt =====
-- Repeating a request with the same idempotency key.
use aprendiendo.Base.{
  String, Option, none, some, List, [], ◌∷◌, ◌++◌, ◌≡◌, ◌≢◌, refl, inl, inr, arith, eq_iff,
  Option-cases, ok, err,
}
use aprendiendo.Practice.Rows.{
  JobRow, Store, Clock, RequestAnalysisRequest, PracticeApiConfig, UsdOps, PracticeError,
}
use aprendiendo.Practice.Create.{
  create_job, insert_job, new_job, find_by_key, answer, reservation_amount,
}

find_by_key-append :
    (key : String) (js : List JobRow) (k : JobRow)
    → find_by_key key js ≡ none
    → k.idempotency_key ≡ key
    → find_by_key key (js ++ k ∷ []) ≡ some k
find_by_key-append key [] k fresh e = ground (arith, eq_iff k.idempotency_key key)
find_by_key-append key (j ∷ js) k fresh e = ground (arith, find_by_key-append key js k)

module _ {Usd : Type 0} (ops : UsdOps Usd) (s : Store Usd) where
  -- The accepted insert adds the job at the end of its table.
  insert_job-jobs :
      (clock : Clock) (job : JobRow) (amount : Usd) {made : JobRow}
      → (insert_job ops clock job amount s).0 ≡ ok made
      → (made ≡ answer ops clock job)
        × ((insert_job ops clock job amount s).1.jobs ≡ s.jobs ++ job ∷ [])
  unfolding insert_job
  insert_job-jobs clock job amount h = (ground arith, ground arith)

  -- What the accepted creation of a job leaves: under its key, the job that is returned, but for
  -- the time of its expiry, which the answer reads anew.
  create_job-found :
      (clock : Clock) (id : String) (json : Option String) (input : RequestAnalysisRequest Usd)
      (payload_hash : String) (config : PracticeApiConfig Usd) {job : JobRow}
      → (create_job ops clock id json input payload_hash config s).0 ≡ ok job
      → (stored : JobRow) × (find_by_key input.idempotency_key
            (create_job ops clock id json input payload_hash config s).1.jobs
          ≡ some stored)
        × (stored.payload_hash ≡ payload_hash)
        × (record job { expires_at = stored.expires_at } ≡ stored)
  unfolding create_job
  create_job-found clock id json input payload_hash config {job} h =
      elim (Option-cases (find_by_key input.idempotency_key s.jobs)) [
        | inr (existing, found) ↦ (
          existing,
          ground (arith, eq_iff existing.payload_hash payload_hash),
          ground (arith, eq_iff existing.payload_hash payload_hash),
          ground (arith, eq_iff existing.payload_hash payload_hash),
        )
        | inl fresh ↦ elim (Option-cases json) [
          | inl unserialised ↦ absurd (ground (arith, fresh, unserialised, h))
          | inr (request_json, serialised) ↦
              let made = new_job ops id clock payload_hash request_json input in
              let amount = reservation_amount ops input config in
              (
                made,
                ground (
                  arith,
                  insert_job-jobs clock made amount,
                  find_by_key-append input.idempotency_key s.jobs made fresh refl,
                ),
                refl,
                ground (arith, insert_job-jobs clock made amount),
              )
        ]
      ]

  -- Repeating an accepted request is harmless: with the same key and payload, at any later time
  -- and whatever identifier is drawn, it changes nothing and answers with the same job, but for
  -- the time of its expiry, which the first answer read anew.
  pub create_job-create_job :
      (clock clock' : Clock) (id id' : String) (json json' : Option String)
      (input input' : RequestAnalysisRequest Usd) (payload_hash : String)
      (config config' : PracticeApiConfig Usd) {job : JobRow}
      → (create_job ops clock id json input payload_hash config s).0 ≡ ok job
      → input'.idempotency_key ≡ input.idempotency_key
      → let t = (create_job ops clock id json input payload_hash config s).1 in
        (expires_at : String) × (create_job ops clock' id' json' input' payload_hash config' t
          ≡ (ok (record job { expires_at = expires_at }), t))
  unfolding create_job
  create_job-create_job clock clock' id id' json json' input input' payload_hash config config'
        {job} h e =
      let t = (create_job ops clock id json input payload_hash config s).1 in
      let (stored, found, hash, same) =
        create_job-found clock id json input payload_hash config h in
      let again : find_by_key input'.idempotency_key t.jobs ≡ some stored = rw e found in
      (
        stored.expires_at,
        rw (again, create_job, same) (ground (arith, eq_iff stored.payload_hash payload_hash)),
      )

  -- After an accepted request, the same key with another payload is refused, and nothing changes.
  pub create_job-conflict :
      (clock clock' : Clock) (id id' : String) (json json' : Option String)
      (input input' : RequestAnalysisRequest Usd) (payload_hash other_hash : String)
      (config config' : PracticeApiConfig Usd) {job : JobRow}
      → (create_job ops clock id json input payload_hash config s).0 ≡ ok job
      → input'.idempotency_key ≡ input.idempotency_key
      → other_hash ≢ payload_hash
      → let t = (create_job ops clock id json input payload_hash config s).1 in
        create_job ops clock' id' json' input' other_hash config' t
        ≡ (err PracticeError.conflict, t)
  unfolding create_job
  create_job-conflict clock clock' id id' json json' input input' payload_hash other_hash config
        config' {job} h e ne =
      let t = (create_job ops clock id json input payload_hash config s).1 in
      let (stored, found, hash, same) =
        create_job-found clock id json input payload_hash config h in
      let again : find_by_key input'.idempotency_key t.jobs ≡ some stored = rw e found in
      rw (again, create_job) (ground (arith, eq_iff stored.payload_hash other_hash))
