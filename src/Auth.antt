-- ===== src/Auth.antt =====
-- internal/auth/refresh.go: AuthManager. The database, the reply of a token endpoint and the clock are
-- arguments: a time is in nanoseconds since 1970, an expiry in seconds, an int64 of which a
-- negative one counts as 0; expiries beyond what a time.Time holds are left aside. Each function of a Manager is what the code does in one section under its lock.
pub mod Tokens
pub mod Joined
use claude_code_kiro_models.Prelude.Int.{ℤ, pos, negsuc}
use claude_code_kiro_models.Prelude.{
  ℕ, ◌+◌, ◌*◌, ◌/◌, ◌%◌, Bool, true, false, not, ◌||◌, ◌&&◌, Option, none, some, Text, codes, [],
  ◌∷◌, ◌++◌, if◌then◌else◌, is_empty, text_eq, ltb, ◌==◌,
}

pub record Credentials : Type 0 where
  pub access_token : Text
  pub refresh_token : Text
  pub expires_at : ℕ
  pub region : Text
  pub sso_region : Text
  pub client_id : Text
  pub client_secret : Text
  pub profile_arn : Text
  pub auth_type : Text

-- What goes wrong at a token endpoint.
pub data RefreshError : Type 0 where
  unreachable undecoded empty_token bad_expiry : RefreshError
  returned : ℕ → RefreshError

pub data AuthError : Type 0 where
  no_registration no_region : AuthError
  database : Text → AuthError
  refresh : RefreshError → AuthError

pub data Result (A : Type 0) : Type 0 where
  ok : A → Result A
  err : AuthError → Result A

-- coalesce
abbrev pub coalesce : Text → Text → Text
coalesce [] b = b
coalesce (r ∷ a) b = r ∷ a

abbrev pub default_api_key_region : Text
default_api_key_region = codes "us-east-1"

pub record Manager : Type 0 where
  pub api_key : Text
  pub api_key_region : Text
  pub force_refresh : Bool
  pub cached : Option Credentials

abbrev pub new_auth_manager : Manager
new_auth_manager = record {
  api_key = [];
  api_key_region = [];
  force_refresh = false;
  cached = none;
}

-- WithAPIKey
unfoldable pub with_api_key : Text → Text → Manager → Manager
with_api_key key region m =
    if is_empty key
    then m
    else record m { api_key = key; api_key_region = coalesce region default_api_key_region }

unfoldable pub uses_api_key : Manager → Bool
uses_api_key m = not (is_empty m.api_key)

abbrev pub second : ℕ
second = 1000000000

-- isTokenValid: it expires later than five minutes from now.
unfoldable pub is_token_valid : ℕ → ℕ → Bool
is_token_valid now expires_at = ltb (now + 300 * second) (expires_at * second)

abbrev pub when_valid : ℕ → Option Credentials → Option Credentials
when_valid now none = none
when_valid now (some c) = if is_token_valid now c.expires_at then some c else none

-- InvalidateCache
unfoldable pub invalidate_cache : Manager → Manager
invalidate_cache m = record m { cached = none }

-- ForceRefresh, up to its call of GetToken.
unfoldable pub mark_forced : Manager → Manager
mark_forced m = if uses_api_key m then m else record m { force_refresh = true; cached = none }

-- GetToken, up to its singleflight: the credentials that it returns at once.
unfoldable pub at_once : ℕ → Manager → Option Credentials
at_once now m =
    if uses_api_key m
    then some (record {
      access_token = m.api_key;
      refresh_token = [];
      expires_at = 0;
      region = m.api_key_region;
      sso_region = [];
      client_id = [];
      client_secret = [];
      profile_arn = [];
      auth_type = codes "api_key";
    })
    else when_valid now m.cached

-- refreshCredentials, its first section: the flag is consumed, and without it the cache is looked at.
unfoldable pub begin_refresh : ℕ → Manager → Manager × Option Credentials
begin_refresh now m =
    (record m { force_refresh = false }, if m.force_refresh then none else when_valid now m.cached)

-- tokenResponse
pub record TokenResponse : Type 0 where
  pub access_token : Text
  pub refresh_token : Text
  pub expires_in : ℤ
  pub profile_arn : Text

pub data Reply : Type 0 where
  unreachable undecoded : Reply
  status : ℕ → Reply
  tokens : TokenResponse → Reply

abbrev pub seconds : ℤ → ℕ
seconds (pos n) = n
seconds (negsuc n) = 0

pub data Refreshed : Type 0 where
  failed : RefreshError → Refreshed
  answered : TokenResponse → Refreshed

-- doTokenRefresh: a reply of status 200 that is decoded is `tokens`.
unfoldable pub do_token_refresh : Reply → Refreshed
do_token_refresh Reply.unreachable = failed RefreshError.unreachable
do_token_refresh Reply.undecoded = failed RefreshError.undecoded
do_token_refresh (Reply.status n) = failed (RefreshError.returned n)
do_token_refresh (Reply.tokens t) =
    if is_empty t.access_token
    then failed RefreshError.empty_token
    else if seconds t.expires_in == 0
    then failed RefreshError.bad_expiry
    else answered t

abbrev pub is_social : Credentials → Bool
is_social c = text_eq c.auth_type (codes "social")

-- A sum of int64: one that wraps around is before 1970.
abbrev pub int64_sum : ℕ → ℕ → ℕ
int64_sum a b = let n = (a + b) % 18446744073709551616 in if ltb n 9223372036854775808 then n else 0

-- refreshOIDCToken and refreshSocialToken, with the fields that are carried over.
unfoldable pub renewed : ℕ → Credentials → TokenResponse → Credentials
renewed now c t = record c {
  access_token = t.access_token;
  refresh_token = coalesce t.refresh_token c.refresh_token;
  expires_at = int64_sum (now / second) (seconds t.expires_in);
  profile_arn = if is_social c then coalesce t.profile_arn c.profile_arn else c.profile_arn;
}

-- The rest of refreshCredentials on credentials that are not used as they are.
unfoldable pub store : ℕ → Manager → Credentials → Refreshed → Manager × Result Credentials
store now m c (failed e) = (m, Result.err (AuthError.refresh e))
store now m c (answered t) =
    (record m { cached = some (renewed now c t) }, Result.ok (renewed now c t))

unfoldable pub renew_token : ℕ → Manager → Credentials → Reply → Manager × Result Credentials
renew_token now m c reply =
    if is_social c
    then store now m c (do_token_refresh reply)
    else if is_empty c.client_id || is_empty c.client_secret
    then (m, Result.err AuthError.no_registration)
    else if is_empty c.sso_region
    then (m, Result.err AuthError.no_region)
    else store now m c (do_token_refresh reply)

-- refreshCredentials after the database is read; `forced` is the flag that was consumed, `now` is
-- when the token is looked at, and `later` when the reply has come.
unfoldable pub finish_refresh :
    ℕ → ℕ → Bool → Manager → Result Credentials → Reply → Manager × Result Credentials
finish_refresh now later forced m (Result.err e) reply = (m, Result.err e)
finish_refresh now later forced m (Result.ok c) reply =
    if not forced && is_token_valid now c.expires_at
    then (record m { cached = some c }, Result.ok c)
    else renew_token later m c reply

abbrev pub served_or :
    Option Credentials → Manager → Manager × Result Credentials → Manager × Result Credentials
served_or (some c) m rest = (m, Result.ok c)
served_or none m rest = rest

-- refreshCredentials with no other section in between.
unfoldable pub refresh_credentials :
    ℕ → ℕ → Manager → Result Credentials → Reply → Manager × Result Credentials
refresh_credentials now later m db reply =
    let begun = begin_refresh now m in
    served_or begun.1 begun.0 (finish_refresh now later m.force_refresh begun.0 db reply)

-- GetToken and ForceRefresh of a caller that no other disturbs.
unfoldable pub get_token :
    ℕ → ℕ → Manager → Result Credentials → Reply → Manager × Result Credentials
get_token now later m db reply =
    served_or (at_once now m) m (refresh_credentials now later m db reply)

unfoldable pub force_refresh_token :
    ℕ → ℕ → Manager → Result Credentials → Reply → Manager × Result Credentials
force_refresh_token now later m db reply = get_token now later (mark_forced m) db reply

-- Callers that disturb one another: `flight` is the refresh that runs, with the flag that it has
-- consumed. A caller who is not answered at once waits for it, and starts it if there is none.
pub record Shared : Type 0 where
  pub manager : Manager
  pub flight : Option Bool

pub data Answer : Type 0 where
  given : Credentials → Answer
  waits : Answer

abbrev pub launched : Shared → Manager × Option Credentials → Shared × Answer
launched s (m, some c) = (record s { manager = m }, given c)
launched s (m, none) = (record { manager = m; flight = some s.manager.force_refresh }, waits)

-- The singleflight of GetToken
abbrev pub join : ℕ → Shared → Option Bool → Shared × Answer
join now s (some forced) = (s, waits)
join now s none = launched s (begin_refresh now s.manager)

abbrev pub answer_or : Option Credentials → Shared → Shared × Answer → Shared × Answer
answer_or (some c) s rest = (s, given c)
answer_or none s rest = rest

unfoldable pub ask : ℕ → Shared → Shared × Answer
ask now s = answer_or (at_once now s.manager) s (join now s s.flight)

unfoldable pub ask_forced : ℕ → Shared → Shared × Answer
ask_forced now s = ask now (record s { manager = mark_forced s.manager })

-- The end of a flight: every caller who waits has its result.
unfoldable pub land :
    ℕ → ℕ → Shared → Bool → Result Credentials → Reply → Shared × Result Credentials
land now later s forced db reply =
    let r = finish_refresh now later forced s.manager db reply in
    (record { manager = r.0; flight = none }, r.1)
