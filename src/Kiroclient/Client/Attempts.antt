-- ===== src/Kiroclient/Client/Attempts.antt =====
-- The requests that one call sends, and when it gives up.
use claude_code_kiro_models.Kiroclient.AwsError.{
  is_event_stream_content_type, is_retryable_aws_exception,
}
use claude_code_kiro_models.Kiroclient.Client.{
  not, HttpResponse, Reply, failed, response, Request, Env, Outcome, upstream_error, request_error,
  max_retries_exceeded, max_attempts, Turn, done, again, on_reply, on_response, on_ok, on_forbidden,
  on_overload, on_refreshed, refreshed, wait_and_retry, attempts, is_last, forbidden, error_of,
  generate_assistant_response,
}
use claude_code_kiro_models.Prelude.{
  subst, ℕ, zero, suc, ◌+◌, ◌≤◌, ◌<◌, Bool, true, false, ◌&&◌, ◌||◌, List, [], ◌∷◌, Option, none,
  some, String, ◌≡◌, refl, arith, length, ◌==◌, leb, if-intro,
}

abbrev pub is_exceeded : Outcome → Bool
is_exceeded max_retries_exceeded = true
is_exceeded _ = false

-- An error that another attempt may not meet: a failed request, 429, 5xx, or a transient exception
-- that came with 200.
abbrev pub is_transient : Outcome → Bool
is_transient (request_error e) = true
is_transient (upstream_error e) =
    (e.status == 429)
    || (leb 500 e.status || ((e.status == 200) && is_retryable_aws_exception e.exception))
is_transient _ = false

-- A turn of an attempt: only the last one gives up on a transient error, and it never asks for more.
abbrev IsLegal : ℕ → Turn → Type 0
IsLegal attempt (done o) =
    (is_exceeded o ≡ false) × (is_transient o ≡ true → is_last attempt ≡ true)
IsLegal attempt (again token) = is_last attempt ≡ false

module _ (env : Env) where
  wait_and_retry-IsLegal :
      (attempt : ℕ) (token : String)
      → is_last attempt ≡ false
      → IsLegal attempt (wait_and_retry env attempt token)
  unfolding wait_and_retry
  wait_and_retry-IsLegal attempt token h =
      if-intro (IsLegal attempt) (env.waits attempt) (λ t. h)
        (λ f. (refl, λ q. absurd (ground arith)))

  on_ok-IsLegal :
      (attempt : ℕ) (token : String) (r : HttpResponse)
      → r.status ≡ 200
      → IsLegal attempt (on_ok env attempt token r)
  unfolding on_ok
  on_ok-IsLegal attempt token r h =
      if-intro (IsLegal attempt)
        (is_event_stream_content_type env.decode env.media_type r.content_type)
        (λ t. (refl, λ q. absurd (ground arith)))
        (λ f.
          if-intro (IsLegal attempt)
            (not (is_last attempt) && is_retryable_aws_exception (error_of env r).exception)
            (λ t. wait_and_retry-IsLegal attempt token (ground arith))
            (λ f'. (refl, λ q. ground arith)))

  forbidden-IsLegal :
      (attempt : ℕ) (r : HttpResponse) → r.status ≡ 403 → IsLegal attempt (forbidden r)
  forbidden-IsLegal attempt r h = (refl, λ q. absurd (ground arith))

  on_refreshed-IsLegal :
      (attempt : ℕ) (r : HttpResponse) (o : Option String)
      → r.status ≡ 403
      → is_last attempt ≡ false
      → IsLegal attempt (on_refreshed r o)
  unfolding on_refreshed
  on_refreshed-IsLegal attempt r (some t) h l = l
  on_refreshed-IsLegal attempt r none h l = forbidden-IsLegal attempt r h

  refreshed-IsLegal :
      (attempt : ℕ) (r : HttpResponse) (o : Option (ℕ → Option String))
      → r.status ≡ 403
      → is_last attempt ≡ false
      → IsLegal attempt (refreshed attempt r o)
  unfolding refreshed
  refreshed-IsLegal attempt r (some f) h l = on_refreshed-IsLegal attempt r (f attempt) h l
  refreshed-IsLegal attempt r none h l = forbidden-IsLegal attempt r h

  on_forbidden-IsLegal :
      (attempt : ℕ) (r : HttpResponse)
      → r.status ≡ 403
      → IsLegal attempt (on_forbidden env attempt r)
  unfolding on_forbidden
  on_forbidden-IsLegal attempt r h =
      if-intro (IsLegal attempt) (is_last attempt) (λ t. forbidden-IsLegal attempt r h)
        (λ f. refreshed-IsLegal attempt r env.refresh h f)

  on_overload-IsLegal :
      (attempt : ℕ) (token : String) (r : HttpResponse)
      → IsLegal attempt (on_overload env attempt token r)
  unfolding on_overload
  on_overload-IsLegal attempt token r =
      if-intro (IsLegal attempt) (is_last attempt) (λ t. (refl, λ q. t))
        (λ f. wait_and_retry-IsLegal attempt token f)

  on_response-IsLegal :
      (attempt : ℕ) (token : String) (r : HttpResponse)
      → IsLegal attempt (on_response env attempt token r)
  unfolding on_response
  on_response-IsLegal attempt token r =
      if-intro (IsLegal attempt) (r.status == 200)
        (λ t. on_ok-IsLegal attempt token r (ground arith))
        (λ f.
          if-intro (IsLegal attempt) (r.status == 403)
            (λ t. on_forbidden-IsLegal attempt r (ground arith))
            (λ f'.
              if-intro (IsLegal attempt) ((r.status == 429) || leb 500 r.status)
                (λ t. on_overload-IsLegal attempt token r)
                (λ f''. (refl, λ q. absurd (ground arith)))))

  on_reply-IsLegal :
      (attempt : ℕ) (token : String) (r : Reply) → IsLegal attempt (on_reply env attempt token r)
  unfolding on_reply
  on_reply-IsLegal attempt token (response r) = on_response-IsLegal attempt token r
  on_reply-IsLegal attempt token (failed e) =
      if-intro (IsLegal attempt) (is_last attempt) (λ t. (refl, λ q. t))
        (λ f. wait_and_retry-IsLegal attempt token f)

-- Requests that count up from `n`, each with the same maximum.
abbrev pub AreNumbered : ℕ → List Request → Type 0
AreNumbered n [] = Unit
AreNumbered n (r ∷ rs) = (r.attempt ≡ n) × ((r.max ≡ max_attempts) × AreNumbered (suc n) rs)

-- What a call with `left` attempts, the first of them the `n`th, sends and returns.
abbrev pub IsOrderly : ℕ → ℕ → List Request × Outcome → Type 0
IsOrderly left n (rs, o) =
    (is_exceeded o ≡ false)
    × (AreNumbered n rs
        × ((1 ≤ length rs) × ((length rs ≤ left) × (is_transient o ≡ true → length rs ≡ left))))

module _ (env : Env) where
  abbrev pub after : ℕ → ℕ → Request → Turn → List Request × Outcome
  after left attempt request t = elim t [
    | done o ↦ (request ∷ [], o)
    | again next ↦ let rest = attempts env left (suc attempt) next in (request ∷ rest.0, rest.1)
  ]

  after-IsOrderly :
      (left attempt : ℕ) (token : String) (t : Turn)
      → attempt + suc left ≡ max_attempts
      → IsLegal attempt t
      → ((next : String)
          → 0 < left
          → IsOrderly left (suc attempt + 1) (attempts env left (suc attempt) next))
      → IsOrderly (suc left) (attempt + 1) (
          after left attempt
            (record { token = token; attempt = attempt + 1; max = max_attempts })
            t)
  after-IsOrderly left attempt token (done o) h (e, l) more =
      (e, ((refl, (refl, tt)), (omega arith, (omega arith, λ q. let last = l q in ground arith))))
  after-IsOrderly left attempt token (again next) h l more =
      let (e, (n, (lo, (hi, tr)))) = more next (ground arith) in
      let same : suc attempt + 1 ≡ suc (attempt + 1) = omega arith in
      (
        e,
        (
          (
            refl,
            (refl, subst (λ k. AreNumbered k (attempts env left (suc attempt) next).0) same n),
          ),
          (omega arith, (omega arith, λ q. omega (arith, tr q))),
        ),
      )

  attempts-IsOrderly :
      (left attempt : ℕ) (token : String)
      → attempt + left ≡ max_attempts
      → 0 < left
      → IsOrderly left (attempt + 1) (attempts env left attempt token)
  unfolding attempts
  attempts-IsOrderly zero attempt token h l = absurd (omega arith)
  attempts-IsOrderly (suc left) attempt token h l =
      after-IsOrderly left attempt token (on_reply env attempt token (env.respond attempt token)) h
        (on_reply-IsLegal env attempt token (env.respond attempt token))
        (λ next h'. attempts-IsOrderly left (suc attempt) next (omega arith) h')

  -- A call of GenerateAssistantResponse sends one to three requests, numbered from 1 with the
  -- maximum of 3; it never ends with the error that stands after the loop, and it gives up on a
  -- failed request, on 429, on 5xx and on a transient exception that came with 200 only after the
  -- third request.
  pub generate_assistant_response-IsOrderly :
      (token : String) → IsOrderly max_attempts 1 (generate_assistant_response env token)
  unfolding generate_assistant_response
  generate_assistant_response-IsOrderly token =
      attempts-IsOrderly max_attempts 0 token refl (omega arith)
