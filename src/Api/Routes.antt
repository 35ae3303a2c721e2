-- ===== src/Api/Routes.antt =====
-- api/main.go, `run`: which handler a request goes to. A path that no handler is registered for is
-- answered by package net/http.
use serverless_gpu_linode.Common.{String, Bool, Option, none, some, if◌then◌else◌, str_eq}
use serverless_gpu_linode.Settings.Services.{ApiConfig}
use serverless_gpu_linode.Api.{Replies, Outcome, answers, handle_create_job, handle_health}
use serverless_gpu_linode.Api.Documents.{handle_open_api, handle_docs}

-- Whether there is a connection is what the health check asks.
unfoldable pub serve : ApiConfig → Replies → Bool → String → String → Option Outcome
unfolding handle_open_api handle_docs
serve cfg r is_connected method path =
    if str_eq path "/v1/jobs"
    then some (handle_create_job cfg r method)
    else (if str_eq path "/health"
        then some (answers (handle_health is_connected))
        else (if str_eq path "/openapi.json"
            then some (answers handle_open_api)
            else (if str_eq path "/docs" then some (answers handle_docs) else none)))
