-- ===== src/Reqconv/Payload/Built.antt =====
-- What every payload is like.
use claude_code_kiro_models.Prelude.{List, ◌++◌, Option, some, String, Text, ◌≡◌, refl, All}
use claude_code_kiro_models.Reqconv.Message.{Role}
use claude_code_kiro_models.Reqconv.Payload.Said.{IsSaid, IsSaidEntry, build_with-IsSaid}
use claude_code_kiro_models.Reqconv.Payload.Turns.{TakesTurns, build_with-TakesTurns}
use claude_code_kiro_models.Reqconv.Payload.{
  Payload, Request, BuildOptions, build_payload, build_tools, build_with, offered, emulated,
}
use claude_code_kiro_models.Reqconv.ToolNames.{ToolNameMap}
use claude_code_kiro_models.Reqconv.Tools.Offered.{IsSound, convert_tools-offered}
use claude_code_kiro_models.Reqconv.Tools.{ToolEntry, callable_tools, apply_tool_cache_points}

module _ (marshal : String → Text) (hex_digest uuid : Text → Text)
    (parse_env_state : Text → Option String) where
  build_tools_total :
      (req : Request) (options : BuildOptions)
      → All IsSound (callable_tools (offered req.tools options.tool_search))
      → (r : ToolNameMap × List ToolEntry) × (build_tools marshal hex_digest uuid parse_env_state
            req options
          ≡ some r)
  unfolding build_tools
  build_tools_total req options h =
      let tools = callable_tools (offered req.tools options.tool_search) in
      let (r, converted, names, callable, marked) = convert_tools-offered hex_digest tools h in
      let entries =
        apply_tool_cache_points tools r.1 ++ emulated options.tool_search options.advises in
      ((r.0, entries), rw converted refl)

  -- If no reference in the schemas of the tools that are offered panics, BuildPayload returns a
  -- payload. Its history takes turns from the user to the assistant and ends with the assistant, if
  -- it is not empty, so that the current message comes in the user's turn; and each turn of the
  -- user, the current message included, has a text or a tool result.
  pub build_payload_total :
      (req : Request) (options : BuildOptions)
      → All IsSound (callable_tools (offered req.tools options.tool_search))
      → (r : Payload × ToolNameMap) × (build_payload marshal hex_digest uuid parse_env_state req
            options
          ≡ some r)
        × TakesTurns Role.user r.0.history
        × All IsSaidEntry r.0.history
        × IsSaid r.0.current.content r.0.current.tool_results
  unfolding build_payload
  build_payload_total req options h =
      let (t, built) = build_tools_total req options h in
      let said = build_with-IsSaid marshal hex_digest uuid parse_env_state req options t.0 t.1 in
      (
        build_with marshal hex_digest uuid parse_env_state req options t.0 t.1,
        rw built refl,
        build_with-TakesTurns marshal hex_digest uuid parse_env_state req options t.0 t.1,
        said.0,
        said.1,
      )
