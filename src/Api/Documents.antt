-- ===== src/Api/Documents.antt =====
-- api/main.go: the two documents of the API, `openAPISpec` and `swaggerHTML`, with `handleOpenAPI` and
-- `handleDocs`. The first is modelled as the JSON that its text is.
use serverless_gpu_linode.Common.{String, ◌+++◌, true, List, [], ◌∷◌, none}
use serverless_gpu_linode.Common.Json.{Json, text, truth, object_of, array_of}
use serverless_gpu_linode.Api.{Response, plain, document}

-- The operation on `/health`, and the one on `/v1/jobs`.
abbrev health_operation : Json
health_operation = object_of (
    ("summary", text "Health check")
    ∷ (
      "responses",
      object_of (
          ("200", object_of (("description", text "Service is healthy") ∷ []))
          ∷ ("503", object_of (("description", text "NATS is disconnected") ∷ []))
          ∷ []),
    )
    ∷ [])

abbrev jobs_operation : Json
jobs_operation = object_of (
    ("summary", text "Queue a new job")
    ∷ (
      "requestBody",
      object_of (
          ("required", truth true)
          ∷ (
            "content",
            object_of (
                (
                  "application/json",
                  object_of (
                      (
                        "schema",
                        object_of (("$ref", text "#/components/schemas/CreateJobRequest") ∷ []),
                      )
                      ∷ []),
                )
                ∷ []),
          )
          ∷ []),
    )
    ∷ (
      "responses",
      object_of (
          (
            "202",
            object_of (
                ("description", text "Job accepted")
                ∷ (
                  "content",
                  object_of (
                      (
                        "application/json",
                        object_of (
                            (
                              "schema",
                              object_of
                                  (("$ref", text "#/components/schemas/CreateJobResponse") ∷ []),
                            )
                            ∷ []),
                      )
                      ∷ []),
                )
                ∷ []),
          )
          ∷ ("400", object_of (("description", text "Invalid request body") ∷ []))
          ∷ ("503", object_of (("description", text "NATS unavailable") ∷ []))
          ∷ []),
    )
    ∷ [])

-- What each path has.
abbrev pub health_path : Json
health_path = object_of (("get", health_operation) ∷ [])

abbrev pub jobs_path : Json
jobs_path = object_of (("post", jobs_operation) ∷ [])

-- The schemas of the request and of its answer.
abbrev schemas : Json
schemas = object_of (
    (
      "CreateJobRequest",
      object_of (
          ("type", text "object")
          ∷ ("required", array_of ((text "prompt") ∷ []))
          ∷ (
            "properties",
            object_of (
                (
                  "prompt",
                  object_of (("type", text "string") ∷ ("example", text "hello world") ∷ []),
                )
                ∷ ("jobId", object_of (("type", text "string") ∷ ("example", text "123") ∷ []))
                ∷ []),
          )
          ∷ []),
    )
    ∷ (
      "CreateJobResponse",
      object_of (
          ("type", text "object")
          ∷ (
            "properties",
            object_of (
                ("jobId", object_of (("type", text "string") ∷ []))
                ∷ ("status", object_of (("type", text "string") ∷ ("example", text "queued") ∷ []))
                ∷ []),
          )
          ∷ []),
    )
    ∷ [])

unfoldable pub open_api_spec : Json
open_api_spec = object_of (
    ("openapi", text "3.0.3")
    ∷ (
      "info",
      object_of (
          ("title", text "Serverless GPU API")
          ∷ ("version", text "1.0.0")
          ∷ ("description", text "HTTP API for submitting jobs into NATS.")
          ∷ []),
    )
    ∷ ("servers", array_of ((object_of (("url", text "/") ∷ [])) ∷ []))
    ∷ ("paths", object_of (("/health", health_path) ∷ ("/v1/jobs", jobs_path) ∷ []))
    ∷ ("components", object_of (("schemas", schemas) ∷ []))
    ∷ [])

abbrev lines : List String → String
lines [] = ""
lines (l ∷ []) = l
lines (l ∷ rest) = l +++ ("\n" +++ lines rest)

unfoldable pub swagger_html : String
swagger_html = lines (
    "<!doctype html>" ∷ "<html lang=\"en\">" ∷ "  <head>" ∷ "    <meta charset=\"utf-8\" />"
    ∷ "    <meta name=\"viewport\" content=\"width=device-width, initial-scale=1\" />"
    ∷ "    <title>Serverless GPU API Docs</title>"
    ∷ "    <link rel=\"stylesheet\" href=\"https://unpkg.com/swagger-ui-dist@5/swagger-ui.css\" />"
    ∷ "  </head>" ∷ "  <body>" ∷ "    <div id=\"swagger-ui\"></div>"
    ∷ "    <script src=\"https://unpkg.com/swagger-ui-dist@5/swagger-ui-bundle.js\"></script>"
    ∷ "    <script>" ∷ "      window.ui = SwaggerUIBundle({" ∷ "        url: '/openapi.json',"
    ∷ "        dom_id: '#swagger-ui'," ∷ "        deepLinking: true" ∷ "      });" ∷ "    </script>"
    ∷ "  </body>" ∷ "</html>" ∷ [])

unfoldable pub handle_open_api : Response
handle_open_api = record {
  status = 200;
  allow = none;
  content_type = "application/json";
  body = document open_api_spec;
}

unfoldable pub handle_docs : Response
handle_docs = record {
  status = 200;
  allow = none;
  content_type = "text/html; charset=utf-8";
  body = plain swagger_html;
}
