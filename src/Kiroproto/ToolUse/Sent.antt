-- ===== src/Kiroproto/ToolUse/Sent.antt =====
-- Tool calls as the upstream sends them, in frames.
use claude_code_kiro_models.Kiroproto.Event.{Event}
use claude_code_kiro_models.Kiroproto.ToolUse.{Key, Input, Payload, tool_event}
use claude_code_kiro_models.Prelude.{
  Bool, true, false, ◌||◌, List, [], ◌∷◌, ◌++◌, String, Text, ◌≡◌, ◌≢◌, if◌then◌else◌,
}

-- A frame of a call: whether it carries the call's id, its name and a `stop` of false, its input,
-- and what uuid.New() would give.
pub record Part : Type 0 where
  pub has_id : Bool
  pub has_name : Bool
  pub denies_stop : Bool
  pub input : Input
  pub new_id : String

-- A call as the upstream sends it: its id and name, its frames, and whether the last one carries a
-- `stop` of true.
pub record Call : Type 0 where
  pub id : String
  pub name : String
  pub first : Part
  pub later : List Part
  pub stops : Bool

abbrev pub key_if {ℓ} : {A : Type ℓ} → Bool → A → Key A
key_if true a = Key.value a
key_if false a = Key.missing

abbrev pub stop_key : Part → Key Bool
stop_key p = key_if p.denies_stop false

abbrev pub part_frame : String → String → Key Bool → Part → String × Payload
part_frame id name stop p = (
  p.new_id,
  record {
    tool_use_id = key_if p.has_id id;
    name = key_if p.has_name name;
    input = p.input;
    stop = stop;
  },
)

abbrev pub last_stop : Bool → Part → Key Bool
last_stop stops p = if stops then Key.value true else stop_key p

unfoldable pub part_frames : String → String → Bool → Part → List Part → List (String × Payload)
part_frames id name stops p [] = part_frame id name (last_stop stops p) p ∷ []
part_frames id name stops p (q ∷ qs) =
    part_frame id name (stop_key p) p ∷ part_frames id name stops q qs

abbrev pub frames : Call → List (String × Payload)
frames c = part_frames c.id c.name c.stops c.first c.later

unfoldable pub all_frames : List Call → List (String × Payload)
all_frames [] = []
all_frames (c ∷ cs) = frames c ++ all_frames cs

-- What the parts of a call say: an input that is not a JSON string stands for itself, and what came
-- before it is dropped.
abbrev pub text_of : Input → Text
text_of (Input.fragment t) = t
text_of (Input.whole t) = t
text_of _ = []

abbrev pub is_whole : Input → Bool
is_whole (Input.whole t) = true
is_whole _ = false

unfoldable pub has_whole : List Part → Bool
has_whole [] = false
has_whole (p ∷ ps) = is_whole p.input || has_whole ps

unfoldable pub said : List Part → Text
said [] = []
said (p ∷ ps) = if has_whole ps then said ps else text_of p.input ++ said ps

unfoldable pub is_named : List Part → Bool
is_named [] = false
is_named (p ∷ ps) = p.has_name || is_named ps

abbrev pub call_event : Call → Event
call_event c = tool_event c.id c.name (said (c.first ∷ c.later))

-- Every call has an id, and not that of the call before it; its first frame carries the id, and one
-- of its frames the name.
unfoldable pub AreDistinct : String → List Call → Type 0
AreDistinct before [] = Unit
AreDistinct before (c ∷ cs) =
    (c.id ≢ "")
    × (c.id ≢ before)
    × (c.first.has_id ≡ true)
    × (is_named (c.first ∷ c.later) ≡ true)
    × AreDistinct c.id cs
