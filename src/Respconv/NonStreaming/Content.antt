-- ===== src/Respconv/NonStreaming/Content.antt =====
-- The content of the JSON response against the deltas of the events, and its order.
use claude_code_kiro_models.Kiroproto.Event.{Event}
use claude_code_kiro_models.Prelude.Int.{ℤ}
use claude_code_kiro_models.Prelude.Numbers.{Float64}
use claude_code_kiro_models.Prelude.{
  append_assoc, ℕ, Bool, List, [], ◌∷◌, ◌++◌, String, Text, ◌≡◌, refl, sym, ap, ◌∙◌, append-nil,
  map, Option,
}
use claude_code_kiro_models.Respconv.Accumulator.Delivery.{texts, thoughts, finalize-process_events}
use claude_code_kiro_models.Respconv.Accumulator.{process_events, finalize_stream}
use claude_code_kiro_models.Respconv.NonStreaming.{
  deduplicate_tool_calls, text_blocks, thinking_blocks, finalize_result, ContentBlock,
  redacted_thinking, thinking, text, tool_use, content_of, tool_use_block, build_response_from_acc,
  build_non_streaming_response,
}
use claude_code_kiro_models.Respconv.Result.{finalize_result}
use claude_code_kiro_models.Respconv.State.{ToolCall, Accumulator, new_accumulator}

module _ {Json : Type 0} where
  -- What the blocks of a kind say together.
  unfoldable pub text_of : List (ContentBlock Json) → Text
  text_of [] = []
  text_of (text t ∷ bs) = t ++ text_of bs
  text_of (_ ∷ bs) = text_of bs

  unfoldable pub thinking_of : List (ContentBlock Json) → Text
  thinking_of [] = []
  thinking_of (thinking t s ∷ bs) = t ++ thinking_of bs
  thinking_of (_ ∷ bs) = thinking_of bs

  text_of-append :
      (bs cs : List (ContentBlock Json)) → text_of (bs ++ cs) ≡ text_of bs ++ text_of cs
  unfolding text_of
  text_of-append [] cs = refl
  text_of-append (text t ∷ bs) cs =
      ap (◌++◌ t) (text_of-append bs cs) ∙ sym (append_assoc t (text_of bs) (text_of cs))
  text_of-append (redacted_thinking t ∷ bs) cs = text_of-append bs cs
  text_of-append (thinking t s ∷ bs) cs = text_of-append bs cs
  text_of-append (tool_use i n v ∷ bs) cs = text_of-append bs cs

  thinking_of-append :
      (bs cs : List (ContentBlock Json)) → thinking_of (bs ++ cs) ≡ thinking_of bs ++ thinking_of cs
  unfolding thinking_of
  thinking_of-append [] cs = refl
  thinking_of-append (thinking t s ∷ bs) cs =
      ap (◌++◌ t) (thinking_of-append bs cs)
      ∙ sym (append_assoc t (thinking_of bs) (thinking_of cs))
  thinking_of-append (redacted_thinking t ∷ bs) cs = thinking_of-append bs cs
  thinking_of-append (text t ∷ bs) cs = thinking_of-append bs cs
  thinking_of-append (tool_use i n v ∷ bs) cs = thinking_of-append bs cs

module _ {Json : Type 0} (decode : Text → Option Json) (empty_object : Json) where
  abbrev redacted : Text → ContentBlock Json
  redacted t = redacted_thinking t

  silent_redacted :
      (rs : List Text) → (text_of (map redacted rs) ≡ []) × (thinking_of (map redacted rs) ≡ [])
  unfolding text_of thinking_of
  silent_redacted [] = (refl, refl)
  silent_redacted (r ∷ rs) = silent_redacted rs

  silent_tools :
      (cs : List ToolCall)
      → (text_of (map (tool_use_block decode empty_object) cs) ≡ [])
        × (thinking_of (map (tool_use_block decode empty_object) cs) ≡ [])
  unfolding text_of thinking_of tool_use_block
  silent_tools [] = (refl, refl)
  silent_tools (c ∷ cs) = silent_tools cs

  thinking_blocks-texts :
      (t signature : Text)
      → (text_of (thinking_blocks {Json = Json} t signature) ≡ [])
        × (thinking_of (thinking_blocks {Json = Json} t signature) ≡ t)
  unfolding thinking_blocks text_of thinking_of
  thinking_blocks-texts [] signature = (refl, refl)
  thinking_blocks-texts (c ∷ t) signature = (refl, append-nil (c ∷ t))

  text_blocks-texts :
      (t : Text)
      → (text_of (text_blocks {Json = Json} t) ≡ t)
        × (thinking_of (text_blocks {Json = Json} t) ≡ [])
  unfolding text_blocks text_of thinking_of
  text_blocks-texts [] = (refl, refl)
  text_blocks-texts (c ∷ t) = (append-nil (c ∷ t), refl)

  content_of-texts :
      (a : Accumulator) (calls : List ToolCall)
      → (text_of (content_of decode empty_object a calls) ≡ a.text_buf)
        × (thinking_of (content_of decode empty_object a calls) ≡ a.thinking_buf)
  unfolding content_of
  content_of-texts a calls =
      let rs = map redacted a.redacted_contents in
      let hs = thinking_blocks {Json = Json} a.thinking_buf a.signature in
      let ts = text_blocks {Json = Json} a.text_buf in
      let us = map (tool_use_block decode empty_object) calls in
      let (r, r') = silent_redacted a.redacted_contents in
      let (h, h') = thinking_blocks-texts a.thinking_buf a.signature in
      let (t, t') = text_blocks-texts a.text_buf in
      let (u, u') = silent_tools calls in
      (
        rw
            (
              text_of-append rs (hs ++ (ts ++ us)),
              text_of-append hs (ts ++ us),
              text_of-append ts us,
              r,
              h,
              t,
              u,
            )
            (append-nil a.text_buf),
        rw
            (
              thinking_of-append rs (hs ++ (ts ++ us)),
              thinking_of-append hs (ts ++ us),
              thinking_of-append ts us,
              r',
              h',
              t',
              u',
            )
            (append-nil a.thinking_buf),
      )

  -- The text blocks and the thinking blocks of BuildNonStreamingResponse say what the deltas of their
  -- kind say, joined in order, that ProcessEvent returns for the events one after another, and
  -- FinalizeStream at their end.
  pub build_non_streaming_response-texts :
      (normalize : Text → Text) (tokens_used : Float64 → ℤ → ℕ) (is_valid : Text → Bool)
      (es : List Event) (model : String) (window : ℤ) (seqs : List Text) (max_tokens counted : ℤ)
      → let q = process_events is_valid (new_accumulator window seqs max_tokens counted) es in
        let f = finalize_stream q.0 in
        let r =
          build_non_streaming_response decode empty_object normalize tokens_used is_valid es model
            window seqs max_tokens counted in
        (text_of r.0.content ≡ texts q.1 ++ f.1.text_delta)
        × (thinking_of r.0.content ≡ thoughts q.1 ++ f.1.thinking_delta)
  unfolding build_non_streaming_response build_response_from_acc finalize_result new_accumulator
  build_non_streaming_response-texts normalize tokens_used is_valid es model window seqs max
        counted =
      let a = new_accumulator window seqs max counted in
      let f = finalize_stream (process_events is_valid a es).0 in
      let (t, h) = content_of-texts f.0 (deduplicate_tool_calls normalize f.0.tool_calls) in
      let (t', h') = finalize-process_events is_valid a es in (t ∙ t', h ∙ h')
