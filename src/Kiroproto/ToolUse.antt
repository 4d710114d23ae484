-- ===== src/Kiroproto/ToolUse.antt =====
-- internal/kiroproto/tooluse.go: toolUseAccumulator. A payload is its four keys as JSON decodes
-- them; the decoding is the JSON library's.
pub mod Sent
pub mod Held
pub mod Calls
use claude_code_kiro_models.Kiroproto.Event.{Event, EventType, event}
use claude_code_kiro_models.Prelude.{
  Bool, true, false, not, ◌&&◌, List, [], ◌∷◌, ◌++◌, Option, none, some, String, Text,
  if◌then◌else◌,
}
use text.Mathlib.Text.{◌==◌ as str_eq}

-- A key of the payload: missing, of another JSON type, or a value.
pub data Key {ℓ} (A : Type ℓ) : Type ℓ where
  missing undecodable : Key A
  value : A → Key A

-- `raw["input"]`: a JSON string, a string that does not decode, or the text of another value.
pub data Input : Type 0 where
  missing undecodable : Input
  fragment whole : Text → Input

pub record Payload : Type 0 where
  pub tool_use_id : Key String
  pub name : Key String
  pub input : Input
  pub stop : Key Bool

pub record ToolUseAccumulator : Type 0 where
  pub tool_name : String
  pub tool_use_id : String
  pub tool_input : Text

abbrev pub idle : ToolUseAccumulator
idle = record { tool_name = ""; tool_use_id = ""; tool_input = [] }

-- The Event of a completed call.
abbrev pub tool_event : String → String → Text → Event
tool_event id name input = record (event EventType.tool_use) {
  tool_name = name;
  tool_use_id = id;
  tool_input = input;
  tool_stop = true;
}

-- buildAndReset
unfoldable pub build_and_reset : ToolUseAccumulator → ToolUseAccumulator × Event
build_and_reset a = (idle, tool_event a.tool_use_id a.tool_name a.tool_input)

abbrev pub current_id : Key String → String
current_id (value id) = id
current_id _ = ""

abbrev pub is_present {ℓ} : {A : Type ℓ} → Key A → Bool
is_present missing = false
is_present undecodable = true
is_present (value a) = true

-- update: the id of the call that the payload begins, if it begins one. `new_id` is uuid.New().
unfoldable pub new_tool : ToolUseAccumulator → String → Payload → Option String
new_tool a new_id p =
    let id = current_id p.tool_use_id in
    if not (str_eq id "") && not (str_eq id a.tool_use_id)
    then some id
    else if str_eq id "" && str_eq a.tool_use_id "" && is_present p.name
    then some new_id
    else none

-- update: what is in progress is flushed, and the new call begun.
unfoldable pub begin : ToolUseAccumulator → Option String → ToolUseAccumulator × List Event
begin a none = (a, [])
begin a (some id) = (
  record { tool_name = ""; tool_use_id = id; tool_input = [] },
  if str_eq a.tool_use_id "" then [] else (build_and_reset a).1 ∷ [],
)

unfoldable pub set_name : ToolUseAccumulator → Key String → ToolUseAccumulator
set_name a (value name) = record a { tool_name = name }
set_name a _ = a

unfoldable pub add_input : ToolUseAccumulator → Input → ToolUseAccumulator
add_input a (fragment t) = record a { tool_input = a.tool_input ++ t }
add_input a (whole t) = record a { tool_input = t }
add_input a _ = a

unfoldable pub finish_tool : ToolUseAccumulator → Key Bool → ToolUseAccumulator × List Event
finish_tool a (value true) = let (b, e) = build_and_reset a in (b, e ∷ [])
finish_tool a _ = (a, [])

unfoldable pub update : ToolUseAccumulator → String → Payload → ToolUseAccumulator × List Event
update a new_id p =
    let (b, flushed) = begin a (new_tool a new_id p) in
    let (c, done) = finish_tool (add_input (set_name b p.name) p.input) p.stop in
    (c, flushed ++ done)

unfoldable pub flush : ToolUseAccumulator → ToolUseAccumulator × List Event
flush a = if str_eq a.tool_use_id "" then (a, []) else let (b, e) = build_and_reset a in (b, e ∷ [])

-- What ParseStream reports of the toolUseEvent frames of a stream, each with the id that
-- uuid.New() would give, and of its end.
unfoldable pub tool_events : ToolUseAccumulator → List (String × Payload) → List Event
tool_events a [] = (flush a).1
tool_events a ((new_id, p) ∷ ps) = let (b, events) = update a new_id p in events ++ tool_events b ps
