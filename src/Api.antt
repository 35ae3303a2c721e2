-- ===== src/Api.antt =====
-- api/main.go: `handleCreateJob` with `newJobID` and `writeJSON`, and `handleHealth`.
-- A request is its method and what the decoder makes of its body, up to a limit;
-- a handler gives its response, and the messages that it publishes. The answers of packages
-- encoding/json, crypto/rand, time and nats.go are a record of replies. Texts that a client sends
-- are lists of characters.
pub mod Queued
pub mod Documents
pub mod Routes
pub mod Documented
use serverless_gpu_linode.Common.{
  ℕ, ◌+◌, ◌-◌, ◌/◌, ◌%◌, String, Bool, true, false, not, List, [], ◌∷◌, ◌++◌, Option, none, some,
  Result, ok, err, ltb, if◌then◌else◌, str_eq, codes,
}
use serverless_gpu_linode.Common.Int.{ℤ}
use serverless_gpu_linode.Common.Json.{Json}
use serverless_gpu_linode.Agent.Failure.{trim_space}
use serverless_gpu_linode.Settings.Services.{ApiConfig}

pub record CreateJobRequest : Type 0 where
  pub prompt : List ℕ
  pub job_id : List ℕ

-- `jobMessage`; `Metadata` is never set, and so is left out of the payload.
pub record JobMessage : Type 0 where
  pub job_id : List ℕ
  pub created_at : List ℕ
  pub prompt : List ℕ

-- What is written: a text, by `writeJSON` the fields of a map or a record, or a document that is JSON.
pub data Body : Type 0 where
  plain : String → Body
  json : List (String × List ℕ) → Body
  document : Json → Body

pub record Response : Type 0 where
  pub status : ℕ
  pub allow : Option String
  pub content_type : String
  pub body : Body

abbrev pub write_json : ℕ → List (String × List ℕ) → Response
write_json status fields = record {
  status = status;
  allow = none;
  content_type = "application/json";
  body = json fields;
}

pub record Replies : Type 0 where
  pub decoded : ℤ → Result (List ℕ) CreateJobRequest
  pub random_bytes : Option (List ℕ)
  pub now : List ℕ
  pub marshal : JobMessage → Option (List ℕ)
  pub publish_ok : Bool

-- What a handler does: each message with its subject, and the response.
pub record Outcome : Type 0 where
  pub published : List (String × List ℕ)
  pub response : Response

abbrev pub hex_digit : ℕ → ℕ
hex_digit n = if ltb n 10 then b'0' + n else b'a' + (n - 10)

-- `hex.EncodeToString`.
unfoldable pub hex : List ℕ → List ℕ
hex [] = []
hex (b ∷ bs) = hex_digit (b / 16) ∷ hex_digit (b % 16) ∷ hex bs

abbrev pub answers : Response → Outcome
answers response = record { published = []; response = response }

abbrev pub fails : ℕ → List ℕ → Outcome
fails status reason = answers (write_json status (("error", reason) ∷ []))

unfoldable pub publish_job : ApiConfig → Replies → JobMessage → Outcome
publish_job cfg r msg = elim (r.marshal msg) [
  | none ↦ fails 500 (codes "failed to encode message")
  | some payload ↦ record {
    published = (cfg.nats_subject, payload) ∷ [];
    response =
        if r.publish_ok
        then write_json 202 (("jobId", msg.job_id) ∷ ("status", codes "queued") ∷ [])
        else write_json 503 (("error", codes "queue unavailable") ∷ []);
  }
]

-- `newJobID`.
unfoldable pub new_job_id : Replies → Option (List ℕ)
unfolding hex
new_job_id r = elim r.random_bytes [ none ↦ none | some bytes ↦ some (hex bytes) ]

-- The identifier of the request, or a new one.
unfoldable pub job_id_for : Replies → CreateJobRequest → Option (List ℕ)
unfolding new_job_id
job_id_for r req = elim (trim_space req.job_id) [ [] ↦ new_job_id r | c ∷ rest ↦ some (c ∷ rest) ]

unfoldable pub create_job : ApiConfig → Replies → CreateJobRequest → Outcome
unfolding job_id_for publish_job
create_job cfg r req = elim (trim_space req.prompt) [
  | [] ↦ fails 400 (codes "prompt is required")
  | _ ∷ _ ↦ elim (job_id_for r req) [
    | none ↦ fails 500 (codes "failed to create job id")
    | some job_id ↦
        publish_job cfg r (record { job_id = job_id; created_at = r.now; prompt = req.prompt })
  ]
]

unfoldable pub handle_create_job : ApiConfig → Replies → String → Outcome
unfolding create_job
handle_create_job cfg r method =
    if not (str_eq method "POST")
    then answers (record {
      status = 405;
      allow = some "POST";
      content_type = "text/plain; charset=utf-8";
      body = plain "method not allowed";
    })
    else elim (r.decoded cfg.request_max_bytes) [
      | err e ↦ fails 400 (codes "invalid request body: " ++ e)
      | ok req ↦ create_job cfg r req
    ]

-- `handleHealth`: whether there is a connection, and it is up.
unfoldable pub handle_health : Bool → Response
handle_health is_connected =
    if not is_connected
    then write_json 503 (("status", codes "nats-disconnected") ∷ [])
    else write_json 200 (("status", codes "ok") ∷ [])
