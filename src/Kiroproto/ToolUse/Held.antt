-- ===== src/Kiroproto/ToolUse/Held.antt =====
-- The frames of one call, on the accumulator that holds the call.
use claude_code_kiro_models.Kiroproto.Event.{Event}
use claude_code_kiro_models.Kiroproto.ToolUse.{
  Key, Input, Payload, ToolUseAccumulator, idle, tool_event, build_and_reset, new_tool, begin,
  set_name, add_input, finish_tool, update, flush, tool_events,
}
use claude_code_kiro_models.Prelude.{
  str_eq_self, str_eq_other, Bool, true, false, ◌||◌, List, [], ◌∷◌, ◌++◌, none, String, Text, ◌≡◌,
  ◌≢◌, refl, sym, ap, ◌∙◌, append_assoc, append-nil, Bool-cases, inl, inr, if◌then◌else◌,
}
use text.Mathlib.Text.{◌==◌ as str_eq}
use claude_code_kiro_models.Kiroproto.ToolUse.Sent.{
  Part, key_if, stop_key, part_frame, last_stop, part_frames, text_of, is_whole, has_whole, said,
  is_named,
}

abbrev pub holding : String → String → Text → ToolUseAccumulator
holding id name input = record { tool_name = name; tool_use_id = id; tool_input = input }

-- What is held after frames that say `t`, with a whole input among them or not.
abbrev pub input_after : Text → Bool → Text → Text
input_after before whole t = if whole then t else before ++ t

abbrev pub name_after : String → String → Bool → String
name_after before name named = if named then name else before

named_and_added :
    (id name held : String) (input : Text) (has_name : Bool) (i : Input)
    → add_input (set_name (holding id held input) (key_if has_name name)) i
      ≡ holding id (name_after held name has_name) (input_after input (is_whole i) (text_of i))
unfolding set_name add_input
named_and_added id name held input true Input.missing = rw (append-nil input) refl
named_and_added id name held input true Input.undecodable = rw (append-nil input) refl
named_and_added id name held input true (Input.fragment t) = refl
named_and_added id name held input true (Input.whole t) = refl
named_and_added id name held input false Input.missing = rw (append-nil input) refl
named_and_added id name held input false Input.undecodable = rw (append-nil input) refl
named_and_added id name held input false (Input.fragment t) = refl
named_and_added id name held input false (Input.whole t) = refl

no_new_tool :
    (id held new_id : String) (input : Text) (has_id : Bool) (p : Payload)
    → id ≢ ""
    → p.tool_use_id ≡ key_if has_id id
    → new_tool (holding id held input) new_id p ≡ none
unfolding new_tool
no_new_tool id held new_id input true p h e = rw (e, str_eq_self id, str_eq_other id "" h) refl
no_new_tool id held new_id input false p h e = rw (e, str_eq_other id "" h) refl

-- A frame of the call that is held leaves it held, up to its stop.
update-part :
    (id name held : String) (input : Text) (stop : Key Bool) (p : Part)
    → id ≢ ""
    → update (holding id held input) p.new_id (part_frame id name stop p).1
      ≡ finish_tool
          (holding id
            (name_after held name p.has_name)
            (input_after input (is_whole p.input) (text_of p.input)))
          stop
unfolding update begin
update-part id name held input stop p h =
    rw (no_new_tool id held p.new_id input p.has_id (part_frame id name stop p).1 h refl)
      (ap (λ a. finish_tool a stop) (named_and_added id name held input p.has_name p.input))

-- The first frame of a call flushes the one that is held.
update_first :
    (a : ToolUseAccumulator) (id name : String) (stop : Key Bool) (p : Part)
    → id ≢ ""
    → id ≢ a.tool_use_id
    → p.has_id ≡ true
    → let r = update (holding id "" []) p.new_id (part_frame id name stop p).1 in
      update a p.new_id (part_frame id name stop p).1 ≡ (r.0, (flush a).1 ++ r.1)
unfolding update new_tool begin build_and_reset flush
update_first a id name stop p h other own = elim (Bool-cases (str_eq a.tool_use_id "")) [
  | inl free ↦
      rw (own, str_eq_other id "" h, str_eq_other id a.tool_use_id other, free, str_eq_self id) refl
  | inr taken ↦
      rw (own, str_eq_other id "" h, str_eq_other id a.tool_use_id other, taken, str_eq_self id)
        refl
]

tool_events_step :
    (a : ToolUseAccumulator) (q : String × Payload) (ps : List (String × Payload))
    (b : ToolUseAccumulator) (es : List Event)
    → update a q.0 q.1 ≡ (b, es)
    → tool_events a (q ∷ ps) ≡ es ++ tool_events b ps
unfolding tool_events
tool_events_step a q ps b es e = ap (λ r. r.1 ++ tool_events r.0 ps) e

-- A first frame, whatever follows, against the same frame on an accumulator that holds its call.
first_step :
    (a : ToolUseAccumulator) (id name : String) (stop : Key Bool) (p : Part)
    (ps : List (String × Payload))
    → id ≢ ""
    → id ≢ a.tool_use_id
    → p.has_id ≡ true
    → tool_events a (part_frame id name stop p ∷ ps)
      ≡ (flush a).1 ++ tool_events (holding id "" []) (part_frame id name stop p ∷ ps)
first_step a id name stop p ps h other own =
    let r = update (holding id "" []) p.new_id (part_frame id name stop p).1 in
    tool_events_step a (part_frame id name stop p) ps r.0 ((flush a).1 ++ r.1)
      (update_first a id name stop p h other own)
    ∙ append_assoc (flush a).1 r.1 (tool_events r.0 ps)
    ∙ ap (◌++◌ (flush a).1)
        (sym (tool_events_step (holding id "" []) (part_frame id name stop p) ps r.0 r.1 refl))

pub tool_events_first :
    (a : ToolUseAccumulator) (id name : String) (stops : Bool) (p : Part) (later : List Part)
    (ps : List (String × Payload))
    → id ≢ ""
    → id ≢ a.tool_use_id
    → p.has_id ≡ true
    → tool_events a (part_frames id name stops p later ++ ps)
      ≡ (flush a).1 ++ tool_events (holding id "" []) (part_frames id name stops p later ++ ps)
unfolding part_frames
tool_events_first a id name stops p [] ps h other own =
    first_step a id name (last_stop stops p) p ps h other own
tool_events_first a id name stops p (q ∷ qs) ps h other own =
    first_step a id name (stop_key p) p (part_frames id name stops q qs ++ ps) h other own

name_after-twice :
    (held name : String) (a b : Bool)
    → name_after (name_after held name a) name b ≡ name_after held name (a || b)
name_after-twice held name true true = refl
name_after-twice held name true false = refl
name_after-twice held name false b = refl

input_after-twice :
    (input t u : Text) (a b : Bool)
    → input_after (input_after input a t) b u ≡ input_after input (a || b) (if b then u else t ++ u)
input_after-twice input t u true true = refl
input_after-twice input t u true false = refl
input_after-twice input t u false true = refl
input_after-twice input t u false false = append_assoc input t u

finish_tool_going :
    (a : ToolUseAccumulator) (denies : Bool) → finish_tool a (key_if denies false) ≡ (a, [])
unfolding finish_tool
finish_tool_going a true = refl
finish_tool_going a false = refl

-- What is reported of the frames that are left of a call that is held.
abbrev pub reported : String → String → Text → Bool → List (String × Payload) → List Event
reported id held input stops rest =
    if stops
    then tool_event id held input ∷ tool_events idle rest
    else tool_events (holding id held input) rest

last_step :
    (id name held : String) (input : Text) (stops : Bool) (p : Part)
    (rest : List (String × Payload))
    → id ≢ ""
    → tool_events (holding id held input) (part_frame id name (last_stop stops p) p ∷ rest)
      ≡ reported id
          (name_after held name p.has_name)
          (input_after input (is_whole p.input) (text_of p.input))
          stops
          rest
unfolding finish_tool build_and_reset
last_step id name held input true p rest h =
    tool_events_step (holding id held input) (part_frame id name (Key.value true) p) rest idle
      (tool_event id (name_after held name p.has_name)
          (input_after input (is_whole p.input) (text_of p.input))
        ∷ [])
      (update-part id name held input (Key.value true) p h)
last_step id name held input false p rest h =
    let b =
      holding id (name_after held name p.has_name)
        (input_after input (is_whole p.input) (text_of p.input)) in
    tool_events_step (holding id held input) (part_frame id name (stop_key p) p) rest b []
      (update-part id name held input (stop_key p) p h ∙ finish_tool_going b p.denies_stop)

held_step :
    (id name held : String) (input : Text) (p : Part) (ps : List (String × Payload))
    → id ≢ ""
    → tool_events (holding id held input) (part_frame id name (stop_key p) p ∷ ps)
      ≡ tool_events
          (holding id
            (name_after held name p.has_name)
            (input_after input (is_whole p.input) (text_of p.input)))
          ps
held_step id name held input p ps h = last_step id name held input false p ps h

or-false : (a : Bool) → a || false ≡ a
or-false true = refl
or-false false = refl

pub tool_events_parts :
    (id name held : String) (input : Text) (stops : Bool) (p : Part) (ps : List Part)
    (rest : List (String × Payload))
    → id ≢ ""
    → tool_events (holding id held input) (part_frames id name stops p ps ++ rest)
      ≡ reported id
          (name_after held name (is_named (p ∷ ps)))
          (input_after input (has_whole (p ∷ ps)) (said (p ∷ ps)))
          stops
          rest
unfolding part_frames is_named has_whole said
tool_events_parts id name held input stops p [] rest h =
    rw (or-false p.has_name, or-false (is_whole p.input), append-nil (text_of p.input))
      (last_step id name held input stops p rest h)
tool_events_parts id name held input stops p (q ∷ qs) rest h =
    let held' = name_after held name p.has_name in
    let input' = input_after input (is_whole p.input) (text_of p.input) in
    held_step id name held input p (part_frames id name stops q qs ++ rest) h
    ∙ tool_events_parts id name held' input' stops q qs rest h
    ∙ ap (λ n. reported id n (input_after input' (has_whole (q ∷ qs)) (said (q ∷ qs))) stops rest)
        (name_after-twice held name p.has_name (is_named (q ∷ qs)))
    ∙ ap (λ t. reported id (name_after held name (p.has_name || is_named (q ∷ qs))) t stops rest)
        (input_after-twice input (text_of p.input) (said (q ∷ qs)) (is_whole p.input)
          (has_whole (q ∷ qs)))
