-- ===== src/Auth/Joined.antt =====
-- A forced refresh that meets another refresh.
use claude_code_kiro_models.Auth.{
  invalidate_cache, Credentials, Result, uses_api_key, is_token_valid, mark_forced, at_once, Reply,
  finish_refresh, Shared, waits, ask, ask_forced, land,
}
use claude_code_kiro_models.Prelude.{ℕ, true, false, List, [], ◌∷◌, some, ◌≡◌, arith}

-- When an unforced refresh is running, a caller without an API key that forces one waits for it,
-- and if the credentials of the database have not expired it is given these as they are; its wish
-- is left for the next refresh.
pub ask_forced-stale :
    (now looked later : ℕ) (s : Shared) (c : Credentials) (reply : Reply)
    → uses_api_key s.manager ≡ false
    → s.flight ≡ some false
    → is_token_valid looked c.expires_at ≡ true
    → ((ask_forced now s).1 ≡ waits)
      × ((land looked later (ask_forced now s).0 false (Result.ok c) reply).1 ≡ Result.ok c)
      × ((land looked later (ask_forced now s).0 false (Result.ok c) reply).0.manager.force_refresh
          ≡ true)
unfolding ask_forced ask mark_forced at_once land finish_refresh uses_api_key
ask_forced-stale now looked later s c reply own flying valid = ground arith

-- What other callers may do while a flight runs.
pub data Section : Type 0 where
  asks asks_forced : ℕ → Section
  invalidates : Section

unfoldable pub run_section : Shared → Section → Shared
run_section s (asks now) = (ask now s).0
run_section s (asks_forced now) = (ask_forced now s).0
run_section s invalidates = record s { manager = invalidate_cache s.manager }

unfoldable pub run_sections : Shared → List Section → Shared
run_sections s [] = s
run_sections s (x ∷ xs) = run_sections (run_section s x) xs
