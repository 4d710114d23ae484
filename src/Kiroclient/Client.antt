-- ===== src/Kiroclient/Client.antt =====
-- internal/kiroclient/client.go: GenerateAssistantResponse. The network, the refresher of the token
-- and the waits are an environment that may answer each attempt differently.
pub mod Attempts
pub mod Recovery
use claude_code_kiro_models.Kiroclient.AwsError.{
  UpstreamError, ErrorFields, is_retryable_aws_exception, resolve_aws_exception,
  is_event_stream_content_type,
}
use claude_code_kiro_models.Prelude.{
  ◌-◌, ℕ, zero, suc, ◌+◌, Bool, true, false, not, ◌&&◌, ◌||◌, List, [], ◌∷◌, Option, none, some,
  String, Text, if◌then◌else◌, ◌==◌, ltb, leb, take, is_empty,
}

-- A response: its status, the headers Content-Type and X-Amzn-ErrorType, and its body in bytes.
pub record HttpResponse : Type 0 where
  pub status : ℕ
  pub content_type : Text
  pub error_type : Text
  pub body : List ℕ

-- httpClient.Do: an error or a response.
pub data Reply : Type 0 where
  failed : Text → Reply
  response : HttpResponse → Reply

-- The request of an attempt: its token, and the two numbers of its amz-sdk-request header.
pub record Request : Type 0 where
  pub token : String
  pub attempt : ℕ
  pub max : ℕ

-- `refresh` is the TokenRefresher, if there is one; `waits` says that retryWait comes to its end
-- and is not cancelled.
pub record Env : Type 0 where
  pub decode : List ℕ → Option ErrorFields
  pub media_type : Text → Option Text
  pub respond : ℕ → String → Reply
  pub refresh : Option (ℕ → Option String)
  pub waits : ℕ → Bool

-- A response, or an error: one of the upstream, that of the last request, of the context, or the
-- one after the loop.
pub data Outcome : Type 0 where
  ok : HttpResponse → Outcome
  upstream_error : UpstreamError → Outcome
  request_error : Text → Outcome
  cancelled : Outcome
  max_retries_exceeded : Outcome

abbrev pub max_attempts : ℕ
max_attempts = 3

abbrev pub upstream_body_limit : ℕ
upstream_body_limit = 8192

-- How an attempt ends: a result, or another attempt with a token.
pub data Turn : Type 0 where
  done : Outcome → Turn
  again : String → Turn

-- `attempt < maxAttempts-1`
abbrev pub is_last : ℕ → Bool
is_last attempt = not (ltb attempt (max_attempts - 1))

abbrev pub forbidden : HttpResponse → Turn
forbidden r = done (
    upstream_error
      (record { status = r.status; content_type = r.content_type; exception = []; body = [] }))

unfoldable pub on_refreshed : HttpResponse → Option String → Turn
on_refreshed r (some new_token) = again new_token
on_refreshed r none = forbidden r

unfoldable pub refreshed : ℕ → HttpResponse → Option (ℕ → Option String) → Turn
refreshed attempt r none = forbidden r
refreshed attempt r (some refresher) = on_refreshed r (refresher attempt)

module _ (env : Env) where
  -- retryWait, and the next attempt.
  unfoldable pub wait_and_retry : ℕ → String → Turn
  wait_and_retry attempt token = if env.waits attempt then again token else done cancelled

  abbrev pub error_of : HttpResponse → UpstreamError
  error_of r =
      let body = take upstream_body_limit r.body in
      record {
        status = r.status;
        content_type = r.content_type;
        exception = resolve_aws_exception env.decode env.media_type body r.error_type;
        body = body;
      }

  -- 200: an event stream, or an exception in its place.
  unfoldable pub on_ok : ℕ → String → HttpResponse → Turn
  on_ok attempt token r =
      if is_event_stream_content_type env.decode env.media_type r.content_type
      then done (ok r)
      else if not (is_last attempt) && is_retryable_aws_exception (error_of r).exception
      then wait_and_retry attempt token
      else done (upstream_error (error_of r))

  -- 403: the token is refreshed.
  unfoldable pub on_forbidden : ℕ → HttpResponse → Turn
  on_forbidden attempt r = if is_last attempt then forbidden r else refreshed attempt r env.refresh

  -- 429 and 5xx.
  unfoldable pub on_overload : ℕ → String → HttpResponse → Turn
  on_overload attempt token r =
      if is_last attempt then done (upstream_error (error_of r)) else wait_and_retry attempt token

  unfoldable pub on_response : ℕ → String → HttpResponse → Turn
  on_response attempt token r =
      if r.status == 200
      then on_ok attempt token r
      else if r.status == 403
      then on_forbidden attempt r
      else if (r.status == 429) || leb 500 r.status
      then on_overload attempt token r
      else done (upstream_error (error_of r))

  unfoldable pub on_reply : ℕ → String → Reply → Turn
  on_reply attempt token (failed e) =
      if is_last attempt then done (request_error e) else wait_and_retry attempt token
  on_reply attempt token (response r) = on_response attempt token r

  -- The loop from an attempt on, with the number of attempts that are left: the requests that are
  -- sent, and the result.
  unfoldable pub attempts : ℕ → ℕ → String → List Request × Outcome
  attempts zero attempt token = ([], max_retries_exceeded)
  attempts (suc left) attempt token =
      let request : Request = record { token = token; attempt = attempt + 1; max = max_attempts } in
      elim (on_reply attempt token (env.respond attempt token)) [
        | done o ↦ (request ∷ [], o)
        | again next ↦ let rest = attempts left (suc attempt) next in (request ∷ rest.0, rest.1)
      ]

  -- GenerateAssistantResponse, from a payload that marshals and an endpoint that is a URL.
  unfoldable pub generate_assistant_response : String → List Request × Outcome
  generate_assistant_response token = attempts max_attempts 0 token
