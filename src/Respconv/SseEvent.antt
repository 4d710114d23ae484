-- ===== src/Respconv/SseEvent.antt =====
-- internal/respconv/streaming.go, streaming_toolsearch.go, streaming_advisor.go: the events that an
-- SSEWriter writes, and its fields.
use claude_code_kiro_models.Kiroproto.Event.{EventType}
use claude_code_kiro_models.Prelude.Int.{ℤ}
use claude_code_kiro_models.Prelude.Numbers.{Float64}
use claude_code_kiro_models.Prelude.{
  ℕ, Bool, true, false, List, [], ◌∷◌, ◌++◌, Option, none, String, Text,
}
use claude_code_kiro_models.Respconv.State.{Accumulator}
use claude_code_kiro_models.Respconv.Result.{Usage}
use claude_code_kiro_models.Respconv.Stop.{StopReason}

-- The blocks that stay open for deltas; activeType.
pub data BlockType : Type 0 where
  thinking text tool_use : BlockType

unfoldable pub same_block : BlockType → BlockType → Bool
same_block BlockType.thinking BlockType.thinking = true
same_block BlockType.text BlockType.text = true
same_block BlockType.tool_use BlockType.tool_use = true
same_block _ _ = false

-- content_block
pub data Block : Type 0 where
  thinking : Text → Block
  text : Block
  tool_use : String → String → Block
  redacted_thinking : Text → Block
  server_tool_use : String → String → Block
  tool_search_result : String → List String → Block
  tool_search_error : String → String → Block
  advisor_result : String → Text → String → Block
  advisor_error : String → String → Block

pub data Delta : Type 0 where
  text_delta thinking_delta input_json_delta : Text → Delta

pub record AdvisorIteration : Type 0 where
  pub model : String
  pub input_tokens : ℤ
  pub output_tokens : ℤ

pub data Sse : Type 0 where
  message_start : String → String → Usage → Sse
  block_start : ℕ → Block → Sse
  block_delta : ℕ → Delta → Sse
  block_stop : ℕ → Sse
  message_delta : StopReason → Option Text → Usage → List AdvisorIteration → Sse
  message_stop : Sse
  error : String → Text → Sse

-- SSEWriter. `block_count` is blockIndex + 1, `write_err` says that writeErr is set, and `written`
-- holds what has gone to the ResponseWriter, in order.
pub record SseWriter : Type 0 where
  pub model : String
  pub msg_id : String
  pub block_count : ℕ
  pub active_type : Option BlockType
  pub started : Bool
  pub write_err : Bool
  pub acc : Accumulator
  pub pending_redacted : List Text
  pub pending_redacted_before_text : ℕ
  pub advisor_iterations : List AdvisorIteration
  pub drain_on_stop : Bool
  pub visible_fired : Bool
  pub written : List Sse

-- NewSSEWriter
unfoldable pub new_sse_writer : String → String → Accumulator → SseWriter
new_sse_writer model msg_id acc = record {
  model = model;
  msg_id = msg_id;
  block_count = 0;
  active_type = none;
  started = false;
  write_err = false;
  acc = acc;
  pending_redacted = [];
  pending_redacted_before_text = 0;
  advisor_iterations = [];
  drain_on_stop = false;
  visible_fired = false;
  written = [];
}

-- What becomes of one event: it reaches the client; it is lost by a write error; it is written,
-- and the flush behind it reports an error.
pub data WriteResult : Type 0 where
  delivered lost flush_failed : WriteResult

-- AddAdvisorIteration
unfoldable pub add_advisor_iteration : SseWriter → AdvisorIteration → SseWriter
add_advisor_iteration s it = record s { advisor_iterations = s.advisor_iterations ++ (it ∷ []) }

-- The start of an active block: switchBlock's content_block.
unfoldable pub opened_block : BlockType → Accumulator → Block
opened_block BlockType.thinking acc = Block.thinking acc.signature
opened_block BlockType.text acc = Block.text
opened_block BlockType.tool_use acc = Block.text

-- The events that end a stream as an upstream error.
unfoldable pub is_upstream_error : EventType → Bool
is_upstream_error EventType.invalid_state = true
is_upstream_error EventType.exception = true
is_upstream_error _ = false

-- The environment: `sink` is the ResponseWriter, by what it has been sent; `promotes` says whether
-- OnVisibleOutput succeeds; the others are the parameters of the accumulator.
pub record Env : Type 0 where
  pub sink : List Sse → WriteResult
  pub promotes : Bool
  pub is_valid : Text → Bool
  pub tokens_used : Float64 → ℤ → ℕ
