-- ===== src/Kiroclient/Client/Recovery.antt =====
-- A call that meets failures and then a reply.
use claude_code_kiro_models.Kiroclient.AwsError.{
  is_retryable_aws_exception, is_event_stream_content_type,
}
use claude_code_kiro_models.Kiroclient.Client.Attempts.{after}
use claude_code_kiro_models.Kiroclient.Client.{
  HttpResponse, Reply, failed, response, Env, ok, max_attempts, done, again, on_reply, on_response,
  on_ok, on_forbidden, on_overload, on_refreshed, refreshed, wait_and_retry, attempts, error_of,
  generate_assistant_response,
}
use claude_code_kiro_models.Prelude.{
  ℕ, zero, suc, ◌+◌, ◌≤◌, ◌<◌, true, false, Option, some, String, Text, ◌≡◌, ◌⊎◌, refl, arith,
  length, ◌==◌, Bool-cases, inl, inr, ap, ◌∙◌,
}

module _ (env : Env) where
  -- A reply to an attempt that the call goes on from: the wait after it is not cancelled, or the
  -- refresher has a new token.
  pub data Passes (attempt : ℕ) : Reply → Type 0 where
    unsent : (e : Text) → env.waits attempt ≡ true → Passes attempt (failed e)
    overloaded :
        (r : HttpResponse)
        → (r.status ≡ 429) ⊎ (500 ≤ r.status)
        → env.waits attempt ≡ true
        → Passes attempt (response r)
    excepted :
        (r : HttpResponse)
        → r.status ≡ 200
        → is_event_stream_content_type env.decode env.media_type r.content_type ≡ false
        → is_retryable_aws_exception (error_of env r).exception ≡ true
        → env.waits attempt ≡ true
        → Passes attempt (response r)
    unauthorized :
        (r : HttpResponse) (refresher : ℕ → Option String) (token : String)
        → r.status ≡ 403
        → env.refresh ≡ some refresher
        → refresher attempt ≡ some token
        → Passes attempt (response r)

  Passes-again :
      (attempt : ℕ) (token : String) (r : Reply)
      → attempt < 2
      → Passes attempt r
      → (next : String) × (on_reply env attempt token r ≡ again next)
  unfolding on_reply on_response on_ok on_forbidden on_overload wait_and_retry refreshed
      on_refreshed
  Passes-again attempt token (failed e) h (unsent f w) = (token, ground arith)
  Passes-again attempt token (response r) h (overloaded q s w) = (token, ground arith)
  Passes-again attempt token (response r) h (excepted q s c x w) = (token, ground arith)
  Passes-again attempt token (response r) h (unauthorized q f next s e n) =
      (next, ground (arith, ap (refreshed attempt r) e, ap (on_refreshed r) n))

  arrives :
      (attempt : ℕ) (token : String) (r : HttpResponse)
      → r.status ≡ 200
      → is_event_stream_content_type env.decode env.media_type r.content_type ≡ true
      → on_reply env attempt token (response r) ≡ done (ok r)
  unfolding on_reply on_response on_ok
  arrives attempt token r s c = ground arith

  attempts-recover :
      (left attempt n : ℕ) (token : String) (r : HttpResponse)
      → attempt + left ≡ max_attempts
      → attempt ≤ n
      → n < attempt + left
      → ((i : ℕ) (t : String) → attempt ≤ i → i < n → Passes i (env.respond i t))
      → ((t : String) → env.respond n t ≡ response r)
      → r.status ≡ 200
      → is_event_stream_content_type env.decode env.media_type r.content_type ≡ true
      → ((attempts env left attempt token).1 ≡ ok r)
        × (attempt + length (attempts env left attempt token).0 ≡ suc n)
  unfolding attempts
  attempts-recover zero attempt n token r h lo hi passes last s c = absurd (omega arith)
  attempts-recover (suc left) attempt n token r h lo hi passes last s c =
      elim (Bool-cases (attempt == n)) [
        | inl same ↦
            let here : attempt ≡ n = ground (arith, same) in
            let e : on_reply env attempt token (env.respond attempt token) ≡ done (ok r) =
              ap (on_reply env attempt token) (ap (λ i. env.respond i token) here ∙ last token)
              ∙ arrives attempt token r s c in
            let whole =
              ap
                (after env left attempt
                  (record { token = token; attempt = attempt + 1; max = max_attempts }))
                e in
            (ap (λ q. q.1) whole, omega (arith, here, ap (λ q. length q.0) whole))
        | inr other ↦
            let before : attempt < n = ground (arith, other) in
            let (next, e) =
              Passes-again attempt token (env.respond attempt token) (omega arith)
                (passes attempt token (omega arith) before) in
            let (o, l) =
              attempts-recover left (suc attempt) n next r (omega arith) (omega arith) (omega arith)
                (λ i t hi hn. passes i t (omega arith) hn) last s c in
            let whole =
              ap
                (after env left attempt
                  (record { token = token; attempt = attempt + 1; max = max_attempts }))
                e in
            (ap (λ q. q.1) whole ∙ o, omega (arith, l, ap (λ q. length q.0) whole))
      ]

  -- If the `n`th attempt, of at most three counted from 0, is answered with an event stream
  -- whatever the token, and each one before it with a failure that the call goes on from, the call
  -- returns that response, after `n + 1` requests.
  pub generate_assistant_response-recover :
      (n : ℕ) (token : String) (r : HttpResponse)
      → n < max_attempts
      → ((i : ℕ) (t : String) → i < n → Passes i (env.respond i t))
      → ((t : String) → env.respond n t ≡ response r)
      → r.status ≡ 200
      → is_event_stream_content_type env.decode env.media_type r.content_type ≡ true
      → ((generate_assistant_response env token).1 ≡ ok r)
        × (length (generate_assistant_response env token).0 ≡ suc n)
  unfolding generate_assistant_response
  generate_assistant_response-recover n token r h passes last s c =
      let (o, l) =
        attempts-recover max_attempts 0 n token r refl (omega arith) (omega arith)
          (λ i t hi hn. passes i t hn) last s c in
      (o, omega (arith, l))
