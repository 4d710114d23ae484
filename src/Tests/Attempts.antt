-- ===== src/Tests/Attempts.antt =====
-- A call that is overloaded, then refused for its token, then answered.
use claude_code_kiro_models.Kiroclient.AwsError.{
  before_colon, after_hash, normalize_aws_exception_type, is_event_stream_content_type,
}
use claude_code_kiro_models.Kiroclient.Client.Attempts.{
  IsOrderly, generate_assistant_response-IsOrderly,
}
use claude_code_kiro_models.Kiroclient.Client.Recovery.{
  Passes, overloaded, unauthorized, generate_assistant_response-recover,
}
use claude_code_kiro_models.Kiroclient.Client.{
  HttpResponse, Reply, response, Env, ok, max_attempts, generate_assistant_response,
}
use claude_code_kiro_models.Prelude.{
  text_eq, fold_rune, equal_fold, ℕ, zero, suc, true, [], Option, none, some, String, codes, ◌≡◌,
  ◌<◌, refl, arith, length, inr,
}

-- Both forms of an exception's name.
exception_names :
    (normalize_aws_exception_type (codes "com.amazon#ThrottlingException")
      ≡ codes "ThrottlingException")
    × (normalize_aws_exception_type (codes "ThrottlingException:http://a")
        ≡ codes "ThrottlingException")
unfolding normalize_aws_exception_type after_hash before_colon
exception_names = (refl, refl)

abbrev plain_response : ℕ → HttpResponse
plain_response status = record {
  status = status;
  content_type = codes "application/vnd.amazon.eventstream";
  error_type = [];
  body = [];
}

abbrev reply_to : ℕ → Reply
reply_to zero = response (plain_response 503)
reply_to (suc zero) = response (plain_response 403)
reply_to (suc (suc n)) = response (plain_response 200)

abbrev renew : ℕ → Option String
renew attempt = some "t2"

abbrev network : Env
network = record {
  decode = λ body. none;
  media_type = λ t. some t;
  respond = λ attempt token. reply_to attempt;
  refresh = some renew;
  waits = λ attempt. true;
}

generate_assistant_response-IsOrderly_example :
    IsOrderly max_attempts 1 (generate_assistant_response network "t1")
generate_assistant_response-IsOrderly_example = generate_assistant_response-IsOrderly network "t1"

replies-Passes : (i : ℕ) → i < 2 → Passes network i (reply_to i)
replies-Passes zero h = overloaded (plain_response 503) (inr (omega arith)) refl
replies-Passes (suc zero) h = unauthorized (plain_response 403) renew "t2" refl refl refl
replies-Passes (suc (suc n)) h = absurd (omega arith)

generate_assistant_response-recover_example :
    ((generate_assistant_response network "t1").1 ≡ ok (plain_response 200))
    × (length (generate_assistant_response network "t1").0 ≡ 3)
unfolding is_event_stream_content_type equal_fold fold_rune text_eq
generate_assistant_response-recover_example =
    generate_assistant_response-recover network 2 "t1" (plain_response 200) (omega arith)
      (λ i t h. replies-Passes i h) (λ t. refl) refl refl
