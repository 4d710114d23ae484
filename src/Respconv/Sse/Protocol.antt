-- ===== src/Respconv/Sse/Protocol.antt =====
-- The event protocol that a client of the Messages API reads, as an automaton, and where a writer
-- stands in it.
use claude_code_kiro_models.Prelude.{
  ap, ◌∙◌, ℕ, suc, Bool, true, false, List, [], ◌∷◌, ◌++◌, Option, none, some, ◌==◌, ◌≡◌, ◌⊎◌, refl,
  ap, ◌∙◌, if◌then◌else◌,
}
use claude_code_kiro_models.Respconv.SseEvent.{Sse, SseWriter, Block, BlockType, Delta, same_block}

-- `between n`: n blocks are complete. `inside n k`: block n is open, for deltas of kind k if any.
pub data Phase : Type 0 where
  fresh : Phase
  between : ℕ → Phase
  inside : ℕ → Option BlockType → Phase
  ending closed : Phase

unfoldable pub kind_of : Block → Option BlockType
kind_of (Block.thinking _) = some BlockType.thinking
kind_of Block.text = some BlockType.text
kind_of (Block.tool_use _ _) = some BlockType.tool_use
kind_of (Block.server_tool_use _ _) = some BlockType.tool_use
kind_of _ = none

unfoldable pub delta_kind : Delta → BlockType
delta_kind (Delta.text_delta _) = BlockType.text
delta_kind (Delta.thinking_delta _) = BlockType.thinking
delta_kind (Delta.input_json_delta _) = BlockType.tool_use

unfoldable pub fits : Option BlockType → Delta → Bool
fits none d = false
fits (some k) d = same_block k (delta_kind d)

unfoldable pub step : Phase → Sse → Option Phase
step Phase.fresh (Sse.message_start _ _ _) = some (Phase.between 0)
step Phase.fresh (Sse.error _ _) = some Phase.closed
step (Phase.between n) (Sse.block_start i b) =
    if i == n then some (Phase.inside n (kind_of b)) else none
step (Phase.between n) (Sse.message_delta _ _ _ _) = some Phase.ending
step (Phase.between n) (Sse.error _ _) = some Phase.closed
step (Phase.inside n k) (Sse.block_delta i d) =
    if i == n then if fits k d then some (Phase.inside n k) else none else none
step (Phase.inside n k) (Sse.block_stop i) = if i == n then some (Phase.between (suc n)) else none
step Phase.ending Sse.message_stop = some Phase.closed
step _ _ = none

unfoldable pub next : Option Phase → Sse → Option Phase
next none e = none
next (some p) e = step p e

-- The phase that a transcript reaches, if the protocol allows it.
unfoldable pub reached_from : Option Phase → List Sse → Option Phase
reached_from p [] = p
reached_from p (e ∷ es) = reached_from (next p e) es

unfoldable pub reached : List Sse → Option Phase
reached = reached_from (some Phase.fresh)

-- Some phase is reached.
abbrev pub IsAllowed : List Sse → Type 0
IsAllowed es = (p : Phase) × (reached es ≡ some p)

-- What is written is allowed, and without a write error it stands at the phase.
abbrev pub Tracks : SseWriter → Phase → Type 0
Tracks s p = IsAllowed s.written × (s.write_err ≡ false → reached s.written ≡ some p)

abbrev pub Fresh : SseWriter → Type 0
Fresh s = (s.started ≡ false) × (s.active_type ≡ none) × (s.block_count ≡ 0) × Tracks s Phase.fresh

-- The message is started, and no block is open.
abbrev pub Idle : SseWriter → Type 0
Idle s = (s.started ≡ true) × (s.active_type ≡ none) × Tracks s (Phase.between s.block_count)

-- The message is started, and a block is open for deltas of the kind.
abbrev pub Active : SseWriter → BlockType → Type 0
Active s k =
    (n : ℕ) × (s.started ≡ true)
    × (s.active_type ≡ some k)
    × (s.block_count ≡ suc n)
    × Tracks s (Phase.inside n (some k))

abbrev pub Live : SseWriter → Type 0
Live s = Idle s ⊎ ((k : BlockType) × Active s k)

-- The message is over, as far as the client could be reached.
abbrev pub Closed : SseWriter → Type 0
Closed s = Tracks s Phase.closed

reached_from-append :
    (p : Option Phase) (xs ys : List Sse)
    → reached_from p (xs ++ ys) ≡ reached_from (reached_from p xs) ys
unfolding reached_from
reached_from-append p [] ys = refl
reached_from-append p (x ∷ xs) ys = reached_from-append (next p x) xs ys

pub reached-snoc :
    (xs : List Sse) (e : Sse) (p : Phase)
    → reached xs ≡ some p
    → reached (xs ++ (e ∷ [])) ≡ step p e
unfolding reached reached_from next
reached-snoc xs e p h = reached_from-append (some Phase.fresh) xs (e ∷ []) ∙ ap (λ q. next q e) h
