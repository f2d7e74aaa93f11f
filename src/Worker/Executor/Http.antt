-- ===== src/Worker/Executor/Http.antt =====
-- infrastructure/worker/executor/http/executor.go.
use Prim.Native.String.{String, ◌++◌}
use distributed_workflow_orc.Prelude.{
  Bool, Option, none, some, [], ◌∷◌, ◌==◌, if◌then◌else◌, Map, not,
}
use distributed_workflow_orc.Prelude.Int.{ℤ, pos, negsuc, ltb_ℤ}
use distributed_workflow_orc.Prelude.Results.{Result, ok, err}
use distributed_workflow_orc.Domain.Task.{TaskSpec, TaskResult}
use distributed_workflow_orc.Worker.Executor.Shell.{
  ExecuteError, invalid_payload, build_request, url_not_found, no_result,
}

pub record HttpPayload : Type 0 where
  pub url : String
  pub method : String
  pub body : String
  pub headers : Map String

-- A response, with what was read of its body and the text of the error of reading it.
pub record Response : Type 0 where
  pub status_code : ℤ
  pub body_read : String
  pub read_error : Option String

-- What `http.DefaultClient.Do` leaves: how long it took, whether the deadline has passed, and the
-- response or the text of its error.
pub record Exchange : Type 0 where
  pub lasted : ℤ
  pub deadline_exceeded : Bool
  pub answer : Result String Response

-- `json.Unmarshal`, `http.NewRequestWithContext` of a method, an address and a body,
-- `req.Header.Set`, `Do` under a timeout, and `%d`.
pub record HttpHost : Type 1 where
  pub Request : Type 0
  pub unmarshal : String → Result String HttpPayload
  pub new_request : String → String → String → Result String Request
  pub set_header : String → String → Request → Request
  pub do_request : ℤ → Request → Exchange
  pub format_int : ℤ → String

-- The loop over the headers, in the order of the list.
unfoldable pub set_headers : (http : HttpHost) → Map String → http.Request → http.Request
set_headers http [] req = req
set_headers http ((key, value) ∷ headers) req =
    set_headers http headers (http.set_header key value req)

-- From `resp.Body` on.
unfoldable pub result_of_response : (ℤ → String) → ℤ → Response → TaskResult
result_of_response format_int lasted resp =
    let result : TaskResult = record no_result { stdout = resp.body_read; duration = lasted } in
    elim resp.read_error [
      | some text ↦ record result { exit_code = negsuc 0; error = "read response body: " ++ text }
      | none ↦
          if not (ltb_ℤ resp.status_code (pos 400))
          then record result {
            exit_code = resp.status_code;
            error = "unexpected status code: " ++ format_int resp.status_code;
          }
          else result
    ]

unfoldable pub result_of_exchange : (ℤ → String) → Exchange → TaskResult
unfolding result_of_response
result_of_exchange format_int x = elim x.answer [
  | err text ↦ record no_result {
    exit_code = negsuc 0;
    error = if x.deadline_exceeded then "task timed out" else text;
    duration = x.lasted;
  }
  | ok resp ↦ result_of_response format_int x.lasted resp
]

unfoldable pub execute : HttpHost → TaskSpec → ℤ → TaskResult × Option ExecuteError
unfolding set_headers result_of_exchange
execute http spec timeout = elim (http.unmarshal spec.payload) [
  | err text ↦
      (record no_result { error = "invalid http payload: " ++ text }, some (invalid_payload text))
  | ok p ↦
      if p.url == ""
      then (record no_result { error = "url not found in task spec" }, some url_not_found)
      else elim (http.new_request (if p.method == "" then "GET" else p.method) p.url p.body) [
        | err text ↦ (record no_result { error = text }, some (build_request text))
        | ok req ↦ (
          result_of_exchange http.format_int
              (http.do_request timeout (set_headers http p.headers req)),
          none,
        )
      ]
]
