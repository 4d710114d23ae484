-- ===== src/Tests/Tokens.antt =====
-- Credentials that are valid, and some that have expired.
use claude_code_kiro_models.Auth.Joined.{Section, asks, invalidates}
use claude_code_kiro_models.Auth.Tokens.{
  IsDelivered, IsRenewed, get_token-IsDelivered, force_refresh_token-IsRenewed,
}
use claude_code_kiro_models.Auth.{
  uses_api_key, Credentials, Result, Reply, Shared, new_auth_manager, get_token,
  force_refresh_token,
}
use claude_code_kiro_models.Prelude.Int.{pos}
use claude_code_kiro_models.Prelude.{ℕ, List, ◌∷◌, none, some, [], codes, refl}

abbrev stored : Credentials
stored = record {
  access_token = codes "a1";
  refresh_token = codes "r1";
  expires_at = 2000;
  region = codes "us-east-1";
  sso_region = [];
  client_id = [];
  client_secret = [];
  profile_arn = [];
  auth_type = codes "social";
}

abbrev reply : Reply
reply = Reply.tokens (record {
  access_token = codes "a2";
  refresh_token = [];
  expires_in = pos 3600;
  profile_arn = [];
})

abbrev now : ℕ
now = 1900000000000

get_token-IsDelivered_example :
    IsDelivered now now
      (Result.ok stored)
      reply
      new_auth_manager
      (get_token now now new_auth_manager (Result.ok stored) reply)
unfolding uses_api_key
get_token-IsDelivered_example =
    get_token-IsDelivered now now new_auth_manager (Result.ok stored) reply refl

force_refresh_token-IsRenewed_example :
    IsRenewed now
      (Result.ok stored)
      reply
      (record new_auth_manager { cached = none })
      (force_refresh_token now now
        (record new_auth_manager { cached = some stored })
        (Result.ok stored)
        reply)
unfolding uses_api_key
force_refresh_token-IsRenewed_example =
    force_refresh_token-IsRenewed now now (record new_auth_manager { cached = some stored })
      (Result.ok stored) reply refl

-- A refresh is forced while none is running; another caller asks, and the cache is invalidated.
abbrev shared : Shared
shared = record { manager = new_auth_manager; flight = none }

abbrev others : List Section
others = asks now ∷ invalidates ∷ []
