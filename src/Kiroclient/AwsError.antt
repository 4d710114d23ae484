-- ===== src/Kiroclient/AwsError.antt =====
-- internal/kiroclient/aws_error.go: what kind of error a response is.
use claude_code_kiro_models.Prelude.{
  ℕ, Bool, false, ◌||◌, List, [], ◌∷◌, Option, none, some, Text, codes, if◌then◌else◌, ◌==◌,
  is_empty, text_eq, equal_fold,
}

pub record UpstreamError : Type 0 where
  pub status : ℕ
  pub content_type : Text
  pub exception : Text
  pub body : List ℕ

-- What follows the last `#`.
abbrev pub later_hash : ℕ → Text → Option Text → Option Text
later_hash r s (some t) = some t
later_hash r s none = if r == 35 then some s else none

unfoldable pub after_hash : Text → Option Text
after_hash [] = none
after_hash (r ∷ s) = later_hash r s (after_hash s)

-- What precedes the first `:`.
unfoldable pub before_colon : Text → Text
before_colon [] = []
before_colon (r ∷ s) = let rest = before_colon s in if r == 58 then [] else r ∷ rest

abbrev pub or_whole : Option Text → Text → Text
or_whole none t = t
or_whole (some s) t = s

-- normalizeAWSExceptionType
unfoldable pub normalize_aws_exception_type : Text → Text
normalize_aws_exception_type raw =
    if is_empty raw then [] else before_colon (or_whole (after_hash raw) raw)

-- isRetryableAWSException
unfoldable pub is_retryable_aws_exception : Text → Bool
is_retryable_aws_exception t =
    text_eq t (codes "ThrottlingException")
    || (text_eq t (codes "TooManyRequestsException")
        || (text_eq t (codes "ServiceUnavailableException")
            || (text_eq t (codes "InternalServerException")
                || (text_eq t (codes "InternalFailureException")
                    || text_eq t (codes "InternalServerError")))))

-- The fields `__type`, `type` and `code` of a body that the JSON library decodes, "" if missing.
pub record ErrorFields : Type 0 where
  pub type1 : Text
  pub type2 : Text
  pub code : Text

unfoldable pub first_type : Option ErrorFields → Text
first_type none = []
first_type (some f) =
    normalize_aws_exception_type
      (if is_empty f.type1 then if is_empty f.type2 then f.code else f.type2 else f.type1)

-- `decode` is json.Unmarshal, `media_type` is mime.ParseMediaType.
module _ (decode : List ℕ → Option ErrorFields) (media_type : Text → Option Text) where
  -- parseAWSExceptionType
  unfoldable pub parse_aws_exception_type : List ℕ → Text
  parse_aws_exception_type body = if is_empty body then [] else first_type (decode body)

  -- resolveAWSException; `header` is X-Amzn-ErrorType, "" if missing.
  unfoldable pub resolve_aws_exception : List ℕ → Text → Text
  resolve_aws_exception body header =
      let t = parse_aws_exception_type body in
      if is_empty t then normalize_aws_exception_type header else t

  abbrev pub is_event_stream : Option Text → Bool
  is_event_stream none = false
  is_event_stream (some t) = equal_fold t (codes "application/vnd.amazon.eventstream")

  -- isEventStreamContentType
  unfoldable pub is_event_stream_content_type : Text → Bool
  is_event_stream_content_type ct = is_event_stream (media_type ct)
