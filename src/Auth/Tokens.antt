-- ===== src/Auth/Tokens.antt =====
-- Which credentials a caller gets.
use claude_code_kiro_models.Auth.{
  negsuc, ℤ, text_eq, ◌∷◌, coalesce, codes, int64_sum, Text, pos, [], seconds, Credentials,
  AuthError, RefreshError, Result, Manager, uses_api_key, is_token_valid, when_valid, mark_forced,
  at_once, begin_refresh, TokenResponse, Reply, Refreshed, failed, answered, do_token_refresh,
  is_social, renewed, store, renew_token, finish_refresh, refresh_credentials, get_token,
  force_refresh_token,
}
use native.Mathlib.Decide.{dec_lt}
use claude_code_kiro_models.Prelude.{
  ◌*◌, ◌/◌, ◌<◌, ◌≤◌, ◌+◌, text_eq→eq, text_eq_refl, true≢false, sym, ap, ◌∙◌, arith, if◌then◌else◌,
  ◌≢◌, ◌==◌, ℕ, true, false, ◌||◌, Option, none, some, ◌≡◌, refl, ◌⊎◌, inl, inr, if-intro, is_empty,
  Bool-cases,
}

-- `s` is `new` if that is not empty, and else `old`.
abbrev pub IsReplaced : Text → Text → Text → Type 0
IsReplaced new old s = ((new ≢ []) × (s ≡ new)) ⊎ ((new ≡ []) × (s ≡ old))

-- `c` is `d` renewed by the reply `t`, which came at `later`: a new token that is not empty; a
-- refresh token, and for the social login a profile, that are replaced if the reply has them; and
-- the rest as it was. It expires the reply's seconds later, if that is an int64.
pub record IsRenewal (later : ℕ) (d : Credentials) (t : TokenResponse) (c : Credentials)
    : Type 0 where
  pub new_token : (c.access_token ≡ t.access_token) × (c.access_token ≢ [])
  pub new_expiry :
      (n : ℕ) × (t.expires_in ≡ pos n)
      × (0 < n)
      × ((c.expires_at ≡ later / 1000000000 + n) ⊎ (9223372036854775808 ≤ later / 1000000000 + n))
  pub new_refresh_token : IsReplaced t.refresh_token d.refresh_token c.refresh_token
  pub new_profile :
      ((d.auth_type ≡ codes "social") × IsReplaced t.profile_arn d.profile_arn c.profile_arn)
      ⊎ ((d.auth_type ≢ codes "social") × (c.profile_arn ≡ d.profile_arn))
  pub same_region : (c.region ≡ d.region) × (c.sso_region ≡ d.sso_region)
  pub same_client : (c.client_id ≡ d.client_id) × (c.client_secret ≡ d.client_secret)
  pub same_type : c.auth_type ≡ d.auth_type

-- The credentials of the database are renewed and kept, or there is an error and the manager stays
-- as it is.
abbrev pub IsRenewed :
    ℕ → Result Credentials → Reply → Manager → Manager × Result Credentials → Type 0
IsRenewed later db reply m r =
    ((d c : Credentials) × (t : TokenResponse) × (db ≡ Result.ok d)
      × (reply ≡ Reply.tokens t)
      × IsRenewal later d t c
      × (r.1 ≡ Result.ok c)
      × (r.0.cached ≡ some c))
    ⊎ ((e : AuthError) × (r.1 ≡ Result.err e) × (r.0.cached ≡ m.cached))

coalesce-IsReplaced : (new old : Text) → IsReplaced new old (coalesce new old)
coalesce-IsReplaced [] old = inr (refl, refl)
coalesce-IsReplaced (x ∷ new) old = inl ((λ e. ground (arith, e)), refl)

int64_sum-cases : (a n : ℕ) → (int64_sum a n ≡ a + n) ⊎ (9223372036854775808 ≤ a + n)
int64_sum-cases a n = elim (dec_lt (a + n) 9223372036854775808) [
  | yes small ↦ inl (ground arith)
  | no large ↦ inr (omega arith)
]

is_social-cases :
    (c : Credentials) (a b : Text)
    → ((c.auth_type ≡ codes "social") × ((if is_social c then a else b) ≡ a))
      ⊎ ((c.auth_type ≢ codes "social") × ((if is_social c then a else b) ≡ b))
is_social-cases c a b = elim (Bool-cases (is_social c)) [
  | inl h ↦ inl (text_eq→eq c.auth_type (codes "social") h, rw h refl)
  | inr f ↦ inr (
    λ e. absurd (
        true≢false
          (sym (ap (λ t. text_eq t (codes "social")) e ∙ text_eq_refl (codes "social")) ∙ f)),
    rw f refl,
  )
]

not_empty : (t : Text) → is_empty t ≡ false → t ≢ []
not_empty [] h = absurd (true≢false h)
not_empty (x ∷ t) h = λ e. ground (arith, e)

seconds_positive : (z : ℤ) → (seconds z == 0) ≡ false → (n : ℕ) × (z ≡ pos n) × (0 < n)
seconds_positive (pos n) h = (n, refl, ground (arith, h))
seconds_positive (negsuc n) h = absurd (true≢false h)

renewed-IsRenewal :
    (later : ℕ) (d : Credentials) (t : TokenResponse)
    → is_empty t.access_token ≡ false
    → (seconds t.expires_in == 0) ≡ false
    → IsRenewal later d t (renewed later d t)
unfolding renewed
renewed-IsRenewal later d t h f =
    let (n, e, p) = seconds_positive t.expires_in f in
    record {
      new_token = (refl, not_empty t.access_token h);
      new_expiry = (n, e, p, rw (ap seconds e) (int64_sum-cases (later / 1000000000) n));
      new_refresh_token = coalesce-IsReplaced t.refresh_token d.refresh_token;
      new_profile = elim (is_social-cases d (coalesce t.profile_arn d.profile_arn) d.profile_arn) [
        | inl (social, same) ↦
            inl (social, rw same (coalesce-IsReplaced t.profile_arn d.profile_arn))
        | inr (other, same) ↦ inr (other, same)
      ];
      same_region = (refl, refl);
      same_client = (refl, refl);
      same_type = refl;
    }

-- The answers that doTokenRefresh accepts have a token and an expiry.
abbrev IsAnswer : Reply → Refreshed → Type 0
IsAnswer reply x =
    ((t : TokenResponse) × (reply ≡ Reply.tokens t)
      × (x ≡ answered t)
      × (is_empty t.access_token ≡ false)
      × ((seconds t.expires_in == 0) ≡ false))
    ⊎ ((e : RefreshError) × (x ≡ failed e))

refresh_cases : (reply : Reply) → IsAnswer reply (do_token_refresh reply)
unfolding do_token_refresh
refresh_cases Reply.unreachable = inr (RefreshError.unreachable, refl)
refresh_cases Reply.undecoded = inr (RefreshError.undecoded, refl)
refresh_cases (Reply.status n) = inr (RefreshError.returned n, refl)
refresh_cases (Reply.tokens t) =
    let r = Reply.tokens t in
    if-intro (IsAnswer r) (is_empty t.access_token) (λ _. inr (RefreshError.empty_token, refl))
      (λ filled.
        if-intro (IsAnswer r) (seconds t.expires_in == 0) (λ _. inr (RefreshError.bad_expiry, refl))
          (λ lasts. inl (t, refl, refl, filled, lasts)))

store-IsRenewed :
    (later : ℕ) (m : Manager) (c : Credentials) (reply : Reply)
    → IsRenewed later (Result.ok c) reply m (store later m c (do_token_refresh reply))
unfolding store
store-IsRenewed later m c reply = elim (refresh_cases reply) [
  | inl (t, same, h, filled, lasts) ↦
      let renewal = renewed-IsRenewal later c t filled lasts in
      rw h (inl (c, renewed later c t, t, refl, same, renewal, refl, refl))
  | inr (e, h) ↦ rw h (inr (AuthError.refresh e, refl, refl))
]

renew_token-IsRenewed :
    (later : ℕ) (m : Manager) (c : Credentials) (reply : Reply)
    → IsRenewed later (Result.ok c) reply m (renew_token later m c reply)
unfolding renew_token
renew_token-IsRenewed later m c reply =
    let stored = store-IsRenewed later m c reply in
    let P = λ (r : Manager × Result Credentials). IsRenewed later (Result.ok c) reply m r in
    if-intro P (is_social c) (λ _. stored)
      (λ _.
        if-intro P (is_empty c.client_id || is_empty c.client_secret)
          (λ _. inr (AuthError.no_registration, refl, refl))
          (λ _.
            if-intro P (is_empty c.sso_region) (λ _. inr (AuthError.no_region, refl, refl))
              (λ _. stored)))

-- What a caller without an API key gets: credentials of the cache or of the database that expire
-- more than five minutes later, or the database's renewed, and they are the cached ones from then
-- on; or an error.
abbrev pub IsDelivered :
    ℕ → ℕ → Result Credentials → Reply → Manager → Manager × Result Credentials → Type 0
IsDelivered now later db reply m r =
    ((c : Credentials) × ((m.cached ≡ some c) ⊎ (db ≡ Result.ok c))
      × (now + 300000000000 < c.expires_at * 1000000000)
      × (r.1 ≡ Result.ok c)
      × (r.0.cached ≡ some c))
    ⊎ IsRenewed later db reply m r

is_token_valid-later :
    (now expires_at : ℕ)
    → is_token_valid now expires_at ≡ true
    → now + 300000000000 < expires_at * 1000000000
unfolding is_token_valid
is_token_valid-later now expires_at h = ground (arith, h)

finish_refresh-IsDelivered :
    (now later : ℕ) (m : Manager) (db : Result Credentials) (reply : Reply)
    → IsDelivered now later db reply m (finish_refresh now later false m db reply)
unfolding finish_refresh
finish_refresh-IsDelivered now later m (Result.err e) reply = inr (inr (e, refl, refl))
finish_refresh-IsDelivered now later m (Result.ok c) reply =
    if-intro (λ (r : Manager × Result Credentials). IsDelivered now later (Result.ok c) reply m r)
      (is_token_valid now c.expires_at)
      (λ valid. inl (c, inr refl, is_token_valid-later now c.expires_at valid, refl, refl))
      (λ _. inr (renew_token-IsRenewed later m c reply))

pub finish_refresh-IsRenewed :
    (now later : ℕ) (m : Manager) (db : Result Credentials) (reply : Reply)
    → IsRenewed later db reply m (finish_refresh now later true m db reply)
unfolding finish_refresh
finish_refresh-IsRenewed now later m (Result.err e) reply = inr (e, refl, refl)
finish_refresh-IsRenewed now later m (Result.ok c) reply = renew_token-IsRenewed later m c reply

at_once_own :
    (now : ℕ) (m : Manager) → uses_api_key m ≡ false → at_once now m ≡ when_valid now m.cached
unfolding at_once
at_once_own now m h = rw h refl

valid_cases :
    (now : ℕ) (o : Option Credentials)
    → (when_valid now o ≡ none)
      ⊎ ((c : Credentials) × (o ≡ some c)
          × (now + 300000000000 < c.expires_at * 1000000000)
          × (when_valid now o ≡ some c))
valid_cases now none = inl refl
valid_cases now (some c) = elim (Bool-cases (is_token_valid now c.expires_at)) [
  | inl valid ↦ inr (c, refl, is_token_valid-later now c.expires_at valid, rw valid refl)
  | inr stale ↦ inl (rw stale refl)
]

refresh_credentials-IsDelivered :
    (now later : ℕ) (m : Manager) (db : Result Credentials) (reply : Reply)
    → IsDelivered now later db reply m (refresh_credentials now later m db reply)
unfolding refresh_credentials begin_refresh
refresh_credentials-IsDelivered now later m db reply =
    let begun = record m { force_refresh = false } in
    elim (Bool-cases m.force_refresh) [
      | inl forced ↦ rw forced (inr (finish_refresh-IsRenewed now later begun db reply))
      | inr free ↦ elim (valid_cases now m.cached) [
        | inl stale ↦ rw free (rw stale (finish_refresh-IsDelivered now later begun db reply))
        | inr (c, cached, valid, served) ↦
            rw free (rw served (inl (c, inl cached, valid, refl, cached)))
      ]
    ]

-- What GetToken returns to a caller that no other disturbs, without an API key: credentials of the
-- cache or of the database that expire more than five minutes later, or the database's credentials
-- renewed by the reply of the token endpoint (its token, its refresh token and social profile if it
-- has them, the other fields as they were), and they are the cached ones from then on; or an error,
-- and the cache stays as it is.
pub get_token-IsDelivered :
    (now later : ℕ) (m : Manager) (db : Result Credentials) (reply : Reply)
    → uses_api_key m ≡ false
    → IsDelivered now later db reply m (get_token now later m db reply)
unfolding get_token
get_token-IsDelivered now later m db reply own = elim (valid_cases now m.cached) [
  | inl stale ↦
      rw (at_once_own now m own) (rw stale (refresh_credentials-IsDelivered now later m db reply))
  | inr (c, cached, valid, served) ↦
      rw (at_once_own now m own) (rw served (inl (c, inl cached, valid, refl, cached)))
]

-- What ForceRefresh returns to a caller that no other disturbs, without an API key: the database's
-- credentials with the token that the token endpoint has replied, which is not empty, an expiry
-- that the reply's seconds give, if it is an int64, the reply's refresh token and social profile if
-- it has them, and the other fields as they were, and these are cached; or an error, and then no
-- credentials are cached.
pub force_refresh_token-IsRenewed :
    (now later : ℕ) (m : Manager) (db : Result Credentials) (reply : Reply)
    → uses_api_key m ≡ false
    → IsRenewed later db reply
        (record m { cached = none })
        (force_refresh_token now later m db reply)
unfolding force_refresh_token get_token mark_forced refresh_credentials begin_refresh at_once
    uses_api_key
force_refresh_token-IsRenewed now later m db reply own =
    let begun : Manager = record m { force_refresh = false; cached = none } in
    let renewal = finish_refresh-IsRenewed now later begun db reply in rw own (rw own renewal)
