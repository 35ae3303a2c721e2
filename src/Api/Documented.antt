-- ===== src/Api/Documented.antt =====
-- The answers of api/main.go beside its `openAPISpec`.
use serverless_gpu_linode.Common.{
  ℕ, ◌≡◌, ◌∙◌, refl, sym, ap, ◌⊎◌, inl, inr, String, Bool, true, false, none, some, arith, str_eq,
  str_eq_iff, if◌then◌else◌, decimal, Bool-cases,
}
use serverless_gpu_linode.Common.Json.{Json, object, end, field, members, under}
use serverless_gpu_linode.Settings.Services.{ApiConfig}
use serverless_gpu_linode.Api.{Replies, Outcome, answers, handle_create_job, handle_health}
use serverless_gpu_linode.Api.Documents.{open_api_spec, health_path, jobs_path}
use serverless_gpu_linode.Api.Queued.{handle_create_job_answer}
use serverless_gpu_linode.Api.Routes.{serve}

-- The word for a method in such a document.
abbrev pub verb : String → String
verb method =
    if str_eq method "GET"
    then "get"
    else (if str_eq method "POST"
        then "post"
        else (if str_eq method "PUT"
            then "put"
            else (if str_eq method "DELETE" then "delete" else "")))

abbrev has : String → Json → Bool
has name j = elim (field name (members j)) [ none ↦ false | some v ↦ true ]

-- The document has the operation, and this status among its answers.
unfoldable pub is_operation : String → String → Bool
is_operation path method = has (verb method) (under path (under "paths" open_api_spec))

unfoldable pub is_documented : String → String → ℕ → Bool
is_documented path method status =
    has (decimal status)
      (under "responses" (under (verb method) (under path (under "paths" open_api_spec))))

paths :
    (path : String)
    → under path (under "paths" open_api_spec) ≡ (
        if str_eq "/health" path
        then health_path
        else (if str_eq "/v1/jobs" path then jobs_path else object end))
unfolding open_api_spec field str_eq
paths path = ground arith

health_verb : (word : String) → has word health_path ≡ str_eq "get" word
unfolding field
health_verb word = ground arith

jobs_verb : (word : String) → has word jobs_path ≡ str_eq "post" word
unfolding field
jobs_verb word = ground arith

-- Only one method has each word.
words :
    (str_eq "get" "post" ≡ false)
    × (str_eq "get" "put" ≡ false)
    × (str_eq "get" "delete" ≡ false)
    × (str_eq "get" "" ≡ false)
    × (str_eq "post" "get" ≡ false)
    × (str_eq "post" "put" ≡ false)
    × (str_eq "post" "delete" ≡ false)
    × (str_eq "post" "" ≡ false)
unfolding str_eq
words = (refl, refl, refl, refl, refl, refl, refl, refl)

verb_get : (method : String) → str_eq "get" (verb method) ≡ true → method ≡ "GET"
verb_get method h = elim (Bool-cases (str_eq method "GET")) [
  | inl yes' ↦ (str_eq_iff method "GET").0 yes'
  | inr no' ↦ absurd (ground (arith, words))
]

verb_post : (method : String) → str_eq "post" (verb method) ≡ true → method ≡ "POST"
verb_post method h = elim (Bool-cases (str_eq method "POST")) [
  | inl yes' ↦ (str_eq_iff method "POST").0 yes'
  | inr no' ↦ absurd (ground (arith, words))
]

at_path :
    (path method : String) (found : Json)
    → under path (under "paths" open_api_spec) ≡ found
    → is_operation path method ≡ true
    → has (verb method) found ≡ true
unfolding is_operation
at_path path method found e h = ap (λ j. has (verb method) j) (sym e) ∙ h

operations :
    (path method : String)
    → is_operation path method ≡ true
    → ((path ≡ "/health") × (method ≡ "GET")) ⊎ ((path ≡ "/v1/jobs") × (method ≡ "POST"))
unfolding is_operation field
operations path method h = elim (Bool-cases (str_eq "/health" path)) [
  | inl here ↦ inl (
    sym ((str_eq_iff "/health" path).0 here),
    verb_get method (
        sym (health_verb (verb method))
        ∙ at_path path method health_path (ground (arith, paths path)) h),
  )
  | inr not_here ↦ elim (Bool-cases (str_eq "/v1/jobs" path)) [
    | inl here ↦ inr (
      sym ((str_eq_iff "/v1/jobs" path).0 here),
      verb_post method (
          sym (jobs_verb (verb method))
          ∙ at_path path method jobs_path (ground (arith, paths path)) h),
    )
    | inr nowhere ↦ absurd (ground (arith, paths path))
  ]
]

health_documented :
    (is_documented "/health" "GET" 200 ≡ true) × (is_documented "/health" "GET" 503 ≡ true)
unfolding is_documented open_api_spec field str_eq decimal
health_documented = (refl, refl)

jobs_documented :
    (is_documented "/v1/jobs" "POST" 202 ≡ true)
    × (is_documented "/v1/jobs" "POST" 400 ≡ true)
    × (is_documented "/v1/jobs" "POST" 503 ≡ true)
unfolding is_documented open_api_spec field str_eq decimal
jobs_documented = (refl, refl, refl)

job_failure : is_documented "/v1/jobs" "POST" 500 ≡ false
unfolding is_documented open_api_spec field str_eq decimal
job_failure = refl

-- The answer has a status that the document lists, or 500 where it does not.
abbrev pub IsDocumented : String → String → Outcome → Type 0
IsDocumented path method o =
    (is_documented path method o.response.status ≡ true)
    ⊎ ((o.response.status ≡ 500) × (is_documented path method 500 ≡ false))

status-IsDocumented :
    (path method : String) (o : Outcome) (status : ℕ)
    → o.response.status ≡ status
    → is_documented path method status ≡ true
    → IsDocumented path method o
status-IsDocumented path method o status e d = inl (ap (is_documented path method) e ∙ d)

module _ (cfg : ApiConfig) (r : Replies) (is_connected : Bool) where
  health-IsDocumented : IsDocumented "/health" "GET" (answers (handle_health is_connected))
  unfolding handle_health
  health-IsDocumented =
      let o : Outcome = answers (handle_health is_connected) in
      elim (Bool-cases is_connected) [
        | inl up ↦ status-IsDocumented "/health" "GET" o 200 (ground arith) health_documented.0
        | inr down ↦ status-IsDocumented "/health" "GET" o 503 (ground arith) health_documented.1
      ]

  job-IsDocumented : IsDocumented "/v1/jobs" "POST" (handle_create_job cfg r "POST")
  job-IsDocumented =
      let o = handle_create_job cfg r "POST" in
      elim (handle_create_job_answer cfg r "POST") [
        | inl (_, _, _, _, inl (_, e)) ↦
            status-IsDocumented "/v1/jobs" "POST" o 202 (ap (λ x. x.status) e) jobs_documented.0
        | inl (_, _, _, _, inr (_, e)) ↦
            status-IsDocumented "/v1/jobs" "POST" o 503 e jobs_documented.2
        | inr (_, inl (_, no_post)) ↦ absurd (no_post refl)
        | inr (_, inr (inl (e, _, _))) ↦
            status-IsDocumented "/v1/jobs" "POST" o 400 e jobs_documented.1
        | inr (_, inr (inr (e, _, _, _))) ↦ inr (e, job_failure)
      ]

  -- The handler of the path, with its answer.
  abbrev pub IsServed : String → String → Outcome → Type 0
  IsServed method path o =
      ((path ≡ "/health") × (o ≡ answers (handle_health is_connected)))
      ⊎ ((path ≡ "/v1/jobs") × (o ≡ handle_create_job cfg r method))

  -- A request for an operation that the served OpenAPI document describes is answered, by the handler
  -- of its path: `handleHealth` for `/health`, `handleCreateJob` for `/v1/jobs`. The answer has a
  -- status that the document lists for that operation, or 500 where the document does not list that.
  pub serve-IsDocumented :
      (method path : String)
      → is_operation path method ≡ true
      → (o : Outcome) × (serve cfg r is_connected method path ≡ some o)
        × IsServed method path o
        × IsDocumented path method o
  unfolding serve str_eq
  serve-IsDocumented method path known = elim (operations path method known) [
    | inl (p, m) ↦
        rw (p, m)
          (answers (handle_health is_connected), refl, inl (refl, refl), health-IsDocumented)
    | inr (p, m) ↦
        rw (p, m) (handle_create_job cfg r "POST", refl, inr (refl, refl), job-IsDocumented)
  ]
