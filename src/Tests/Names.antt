-- ===== src/Tests/Names.antt =====
-- A tool with a name of 70 letters, and one with a short name.
use claude_code_kiro_models.Prelude.{
  List, [], ◌∷◌, Text, codes, ◌≡◌, refl, sym, ap, ◌∙◌, inl, inr, map, arith, length,
}
use claude_code_kiro_models.Reqconv.ToolNames.RoundTrip.{AreTold, wire, restore-shorten_all}
use claude_code_kiro_models.Reqconv.ToolNames.{
  new_tool_name_map, rune_prefix, short_name, restore, shorten_all,
}
use claude_code_kiro_models.Respconv.ToolCalls.{byte_length, rune_len}

abbrev long_name : Text
long_name = codes "aaaaaaaaaaaaaaaaaaaaaaaaaaaaaaaaaaaaaaaaaaaaaaaaaaaaaaaaaaaaaaaaaaaaaa"

abbrev tool_names : List Text
tool_names = long_name ∷ codes "ls" ∷ []

abbrev no_digest : Text → Text
no_digest name = codes "0123456789abc"

wires_length : (length (wire no_digest long_name) ≡ 64) × (length (wire no_digest (codes "ls")) ≡ 2)
unfolding byte_length rune_len short_name rune_prefix
wires_length = (refl, refl)

tool_names-AreTold : AreTold no_digest tool_names
tool_names-AreTold a b (inl ea) (inl eb) e = ea ∙ sym eb
tool_names-AreTold a b (inl ea) (inr (inl eb)) e = absurd (
    omega (
      arith,
      ap length (ap (wire no_digest) (sym ea) ∙ e ∙ ap (wire no_digest) eb),
      wires_length.0,
      wires_length.1,
    ))
tool_names-AreTold a b (inr (inl ea)) (inl eb) e = absurd (
    omega (
      arith,
      ap length (ap (wire no_digest) (sym ea) ∙ e ∙ ap (wire no_digest) eb),
      wires_length.0,
      wires_length.1,
    ))
tool_names-AreTold a b (inr (inl ea)) (inr (inl eb)) e = ea ∙ sym eb
tool_names-AreTold a b (inr (inr h)) lb e = absurd h
tool_names-AreTold a b (inl ea) (inr (inr h)) e = absurd h
tool_names-AreTold a b (inr (inl ea)) (inr (inr h)) e = absurd h

restore-shorten_all_example :
    map
      (restore (shorten_all no_digest new_tool_name_map tool_names).0)
      (shorten_all no_digest new_tool_name_map tool_names).1
    ≡ tool_names
restore-shorten_all_example = restore-shorten_all no_digest tool_names tool_names-AreTold
