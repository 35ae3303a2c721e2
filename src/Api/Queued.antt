-- ===== src/Api/Queued.antt =====
-- `handleCreateJob` of api/main.go: which requests are queued, and as what.
use serverless_gpu_linode.Common.{
  ℕ, ◌≡◌, ◌≢◌, refl, ◌⊎◌, inl, inr, String, true, false, List, [], ◌∷◌, none, some, Result, ok, err,
  arith, str_eq, str_eq_iff, codes, Result-cases, Option-cases, Bool-cases, List-cases, sym, ap,
  ◌∙◌, ◌++◌,
}
use serverless_gpu_linode.Agent.Failure.{trim_space}
use serverless_gpu_linode.Settings.Services.{ApiConfig}
use serverless_gpu_linode.Api.{
  CreateJobRequest, JobMessage, Replies, Outcome, hex, publish_job, new_job_id, job_id_for,
  create_job, handle_create_job, write_json, fails,
}

module _ (cfg : ApiConfig) (r : Replies) (method : String) where
  -- A request for a job that is well formed: its prompt is not blank.
  pub record IsRequest (req : CreateJobRequest) : Type 0 where
    pub posted : method ≡ "POST"
    pub decoded : r.decoded cfg.request_max_bytes ≡ ok req
    pub prompted : trim_space req.prompt ≢ []

  -- The identifier is the client's, without the space around it, or 16 random bytes in hex.
  abbrev pub IsJobId : CreateJobRequest → List ℕ → Type 0
  IsJobId req job_id =
      ((trim_space req.job_id ≢ []) × (job_id ≡ trim_space req.job_id))
      ⊎ ((trim_space req.job_id ≡ [])
          × (bytes : List ℕ) × (r.random_bytes ≡ some bytes)
          × (job_id ≡ hex bytes))

  pub record IsJob (msg : JobMessage) (payload : List ℕ) : Type 0 where
    pub request : CreateJobRequest
    pub well_formed : IsRequest request
    pub identified : IsJobId request msg.job_id
    pub prompt : msg.prompt ≡ request.prompt
    pub created : msg.created_at ≡ r.now
    pub encoded : r.marshal msg ≡ some payload

  job_id_for-IsJobId :
      (req : CreateJobRequest)
      → ((job_id : List ℕ) × (job_id_for r req ≡ some job_id) × IsJobId req job_id)
        ⊎ ((job_id_for r req ≡ none) × (trim_space req.job_id ≡ []) × (r.random_bytes ≡ none))
  unfolding job_id_for new_job_id
  job_id_for-IsJobId req = elim (Option-cases r.random_bytes) [
    | inl lost ↦ ground arith
    | inr (bytes, drawn) ↦ ground arith
  ]

  -- Why a well-formed request is not queued: there is no identifier, or no payload.
  abbrev pub IsUnencoded : CreateJobRequest → Type 0
  IsUnencoded req =
      ((trim_space req.job_id ≡ []) × (r.random_bytes ≡ none))
      ⊎ ((job_id : List ℕ) × IsJobId req job_id
          × (r.marshal (record { job_id = job_id; created_at = r.now; prompt = req.prompt })
              ≡ none))

  -- A job that is published, and the response by whether that works.
  abbrev pub IsPublished : Outcome → Type 0
  IsPublished o =
      (msg : JobMessage) × (payload : List ℕ) × IsJob msg payload
      × (o.published ≡ (cfg.nats_subject, payload) ∷ [])
      × (((r.publish_ok ≡ true)
            × (o.response
                ≡ write_json 202 (("jobId", msg.job_id) ∷ ("status", codes "queued") ∷ [])))
          ⊎ ((r.publish_ok ≡ false) × (o.response.status ≡ 503)))

  abbrev pub IsRefused : Outcome → Type 0
  IsRefused o =
      (o.published ≡ [])
      × (((o.response.status ≡ 405) × (method ≢ "POST"))
          ⊎ ((o.response.status ≡ 400)
              × (method ≡ "POST")
              × ((req : CreateJobRequest) → ¬ (IsRequest req)))
          ⊎ ((o.response.status ≡ 500)
              × (req : CreateJobRequest) × IsRequest req
              × IsUnencoded req))

  publish_job_answer :
      (req : CreateJobRequest) (job_id : List ℕ)
      → IsRequest req
      → IsJobId req job_id
      → (let o =
            publish_job cfg r
              (record { job_id = job_id; created_at = r.now; prompt = req.prompt }) in
          IsPublished o ⊎ IsRefused o)
  unfolding publish_job
  publish_job_answer req job_id w i =
      let msg : JobMessage = record { job_id = job_id; created_at = r.now; prompt = req.prompt } in
      elim (Option-cases (r.marshal msg)) [
        | inl lost ↦
            rw (publish_job, lost) (inr (refl, inr (inr (refl, req, w, inr (job_id, i, lost)))))
        | inr (payload, made) ↦
            rw (publish_job, made)
              (inl (
                msg,
                payload,
                record {
                  request = req;
                  well_formed = w;
                  identified = i;
                  prompt = refl;
                  created = refl;
                  encoded = made;
                },
                refl,
                ground arith,
              ))
      ]

  prompted-create_job :
      (req : CreateJobRequest)
      → trim_space req.prompt ≢ []
      → create_job cfg r req ≡ elim (job_id_for r req) [
        | none ↦ fails 500 (codes "failed to create job id")
        | some job_id ↦
            publish_job cfg r (record { job_id = job_id; created_at = r.now; prompt = req.prompt })
      ]
  unfolding create_job
  prompted-create_job req w = ground arith

  create_job_answer :
      (req : CreateJobRequest)
      → IsRequest req
      → IsPublished (create_job cfg r req) ⊎ IsRefused (create_job cfg r req)
  create_job_answer req w = elim (job_id_for-IsJobId req) [
    | inl (job_id, given, i) ↦
        rw (prompted-create_job req w.prompted, given) (publish_job_answer req job_id w i)
    | inr (lost, blank, undrawn) ↦
        rw (prompted-create_job req w.prompted, lost)
          (inr (refl, inr (inr (refl, req, w, inl (blank, undrawn)))))
  ]

  ok_Injective :
      {a b : CreateJobRequest} → ◌≡◌ {A = Result (List ℕ) CreateJobRequest} (ok a) (ok b) → a ≡ b
  ok_Injective h = ground arith

  err-ne-ok :
      {e : List ℕ} {a : CreateJobRequest}
      → ¬ (◌≡◌ {A = Result (List ℕ) CreateJobRequest} (err e) (ok a))
  err-ne-ok h = ground arith

  not_posted : str_eq method "POST" ≡ false → IsRefused (handle_create_job cfg r method)
  unfolding handle_create_job
  not_posted no' = rw no' (refl, inl (refl, λ p. ground (arith, str_eq_iff method "POST")))

  posted-handle_create_job :
      method ≡ "POST"
      → handle_create_job cfg r method ≡ elim (r.decoded cfg.request_max_bytes) [
        | err e ↦ fails 400 (codes "invalid request body: " ++ e)
        | ok req ↦ create_job cfg r req
      ]
  unfolding handle_create_job
  posted-handle_create_job p = ground (arith, str_eq_iff method "POST")

  blank-create_job :
      (req : CreateJobRequest)
      → trim_space req.prompt ≡ []
      → create_job cfg r req ≡ fails 400 (codes "prompt is required")
  unfolding create_job
  blank-create_job req e = rw (create_job, e) refl

  bad_request :
      (reason : List ℕ)
      → method ≡ "POST"
      → ((req : CreateJobRequest) → ¬ (IsRequest req))
      → IsRefused (fails 400 reason)
  bad_request reason p never = (refl, inr (inl (refl, p, never)))

  decoded_answer :
      (req : CreateJobRequest)
      → method ≡ "POST"
      → r.decoded cfg.request_max_bytes ≡ ok req
      → IsPublished (create_job cfg r req) ⊎ IsRefused (create_job cfg r req)
  decoded_answer req p d = elim (List-cases (trim_space req.prompt)) [
    | inl blank ↦ rw (blank-create_job req blank) (
        inr (
          bad_request (codes "prompt is required") p (λ other w.
            w.prompted (ap (λ q. trim_space q.prompt) (ok_Injective (sym w.decoded ∙ d)) ∙ blank))))
    | inr (c, rest, said) ↦
        create_job_answer req (record { posted = p; decoded = d; prompted = ground arith })
  ]

  -- For every request: a well-formed one that has an identifier and can be encoded is published
  -- once, as the message with its prompt, to the subject of the settings; and it is answered with
  -- 202 and its identifier if that works, and with 503 if not. Of any other, nothing is published:
  -- it is answered with 405 if it is no POST, with 400 if it is not well formed, and with 500 if
  -- there is no identifier or no encoding.
  pub handle_create_job_answer :
      IsPublished (handle_create_job cfg r method) ⊎ IsRefused (handle_create_job cfg r method)
  handle_create_job_answer = elim (Bool-cases (str_eq method "POST")) [
    | inl yes' ↦
        let p : method ≡ "POST" = (str_eq_iff method "POST").0 yes' in
        elim (Result-cases (r.decoded cfg.request_max_bytes)) [
          | inl (req, d) ↦ rw (posted-handle_create_job p, d) (decoded_answer req p d)
          | inr (e, d) ↦
              rw (posted-handle_create_job p, d)
                (inr (
                  bad_request (codes "invalid request body: " ++ e) p
                    (λ req w. err-ne-ok (sym d ∙ w.decoded))))
        ]
    | inr no' ↦ inr (not_posted no')
  ]
