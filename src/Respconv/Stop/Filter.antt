-- ===== src/Respconv/Stop/Filter.antt =====
-- What the stop sequence filter makes of one chunk.
use claude_code_kiro_models.Prelude.{
  InList, ℕ, ◌+◌, ◌-◌, true, false, List, [], ◌∷◌, ◌++◌, none, some, leb, if◌then◌else◌, Text,
  index, length, take, drop, ◌≡◌, refl, ap, ◌∙◌, ◌⊎◌, inl, inr, arith, ◌≤◌, ◌<◌, Option-cases, All,
  append_assoc,
}
use claude_code_kiro_models.Respconv.Stop.Split.{shift, index-append}
use claude_code_kiro_models.Respconv.Stop.{
  StopReason, StopState, find_match, apply_stop_sequence_filter,
}

-- None of the sequences stands in the text.
abbrev pub IsFree : Text → List Text → Type 0
IsFree t = All (λ s. index s t ≡ none)

pub find_match-none : (seqs : List Text) (t : Text) → find_match seqs t ≡ none → IsFree t seqs
unfolding find_match
find_match-none [] t h = tt
find_match-none (s ∷ seqs) t h = elim (Option-cases (index s t)) [
  | inl e ↦ (e, find_match-none seqs t (ground arith))
  | inr (i, e) ↦ ground arith
]

pub find_match-some :
    (seqs : List Text) (t s : Text) (i : ℕ)
    → find_match seqs t ≡ some (s, i)
    → InList s seqs × (index s t ≡ some i)
unfolding find_match
find_match-some [] t s i h = cc
find_match-some (x ∷ seqs) t s i h = elim (Option-cases (index x t)) [
  | inl e ↦ let (m, e') = find_match-some seqs t s i (ground arith) in (inr m, e')
  | inr (j, e) ↦ (inl (ground arith), ground arith)
]

-- No sequence is empty, and `keep` is enough for every one.
abbrev pub Fits : ℕ → List Text → Type 0
Fits keep = All (λ s. (0 < length s) × (length s ≤ keep + 1))

pub regroup : (u v w x : Text) → (u ++ v) ++ (w ++ x) ≡ u ++ ((v ++ w) ++ x)
regroup u v w x = simp append_assoc

-- What is known between two chunks, `sent` having gone out.
pub record Watch (a : StopState) (sent : Text) : Type 0 where
  pub fits : Fits a.stop_seq_max_keep a.stop_sequences
  pub free : IsFree (sent ++ a.stop_seq_pending) a.stop_sequences
  pub enough : (sent ≡ []) ⊎ (a.stop_seq_max_keep ≤ length a.stop_seq_pending)

pub IsFree-append :
    (seqs : List Text) (keep : ℕ) (sent pending d : Text)
    → Fits keep seqs
    → IsFree (sent ++ pending) seqs
    → IsFree (pending ++ d) seqs
    → (sent ≡ []) ⊎ (keep ≤ length pending)
    → IsFree (sent ++ (pending ++ d)) seqs
IsFree-append [] keep sent pending d fits free next enough = tt
IsFree-append (s ∷ seqs) keep sent pending d fits free next enough =
    (first enough, IsFree-append seqs keep sent pending d fits.1 free.1 next.1 enough)
  where
    first : (sent ≡ []) ⊎ (keep ≤ length pending) → index s (sent ++ (pending ++ d)) ≡ none
    first (inl e) = rw e next.0
    first (inr long) =
        index-append s sent pending d free.0 (omega arith) ∙ ap (shift (length sent)) next.0

-- The filter on one chunk after another, until it stops the response.
unfoldable pub filter_chunks : StopState → List Text → StopState × Text
filter_chunks a [] = (a, [])
filter_chunks a (d ∷ ds) =
    let r = apply_stop_sequence_filter a d in
    let rest = filter_chunks r.0 ds in if a.local_stop then (a, []) else (rest.0, r.1 ++ rest.1)

pub filter_chunks_stopped :
    (a : StopState) (ds : List Text) → a.local_stop ≡ true → filter_chunks a ds ≡ (a, [])
unfolding filter_chunks
filter_chunks_stopped a [] h = refl
filter_chunks_stopped a (d ∷ ds) h =
    let r = apply_stop_sequence_filter a d in
    let rest = filter_chunks r.0 ds in
    ap (λ stopped. if stopped then (a, []) else (rest.0, r.1 ++ rest.1)) h

pub filter_chunks_running :
    (a : StopState) (d : Text) (ds : List Text) (b : StopState) (out : Text)
    → a.local_stop ≡ false
    → apply_stop_sequence_filter a d ≡ (b, out)
    → filter_chunks a (d ∷ ds) ≡ ((filter_chunks b ds).0, out ++ (filter_chunks b ds).1)
unfolding filter_chunks
filter_chunks_running a d ds b out h e =
    let r = apply_stop_sequence_filter a d in
    let rest = filter_chunks r.0 ds in
    ap (λ stopped. if stopped then (a, []) else (rest.0, r.1 ++ rest.1)) h
    ∙ ap (λ q. ((filter_chunks q.0 ds).0, q.1 ++ (filter_chunks q.0 ds).1)) e

-- The response goes on, and no sequence stands in `whole`; or it has stopped at one of them.
abbrev pub Outcome : List Text → Text → Text → StopState × Text → Type 0
Outcome seqs sent whole (b, out) =
    ((b.local_stop ≡ false) × (whole ≡ sent ++ (out ++ b.stop_seq_pending)) × IsFree whole seqs)
    ⊎ ((b.local_stop ≡ true)
        × (b.reason ≡ some StopReason.stop_sequence)
        × InList b.matched seqs
        × (rest : Text) × (whole ≡ sent ++ (out ++ (b.matched ++ rest))))

pub Outcome-sent :
    (seqs : List Text) (sent out whole : Text) (q : StopState × Text)
    → Outcome seqs (sent ++ out) whole q
    → Outcome seqs sent whole (q.0, out ++ q.1)
Outcome-sent seqs sent out whole (b, more) (inl (h, e, f)) =
    inl (h, e ∙ regroup sent out more b.stop_seq_pending, f)
Outcome-sent seqs sent out whole (b, more) (inr (h, r, m, rest, e)) =
    inr (h, r, m, rest, e ∙ regroup sent out more (b.matched ++ rest))

pub filter_match :
    (a : StopState) (d s : Text) (i : ℕ)
    → find_match a.stop_sequences (a.stop_seq_pending ++ d) ≡ some (s, i)
    → apply_stop_sequence_filter a d ≡ (
      record a {
        stop_seq_pending = [];
        local_stop = true;
        reason = some StopReason.stop_sequence;
        matched = s;
      },
      take i (a.stop_seq_pending ++ d),
    )
unfolding apply_stop_sequence_filter
filter_match a d s i e = rw (e, apply_stop_sequence_filter)

pub filter_short :
    (a : StopState) (d : Text)
    → find_match a.stop_sequences (a.stop_seq_pending ++ d) ≡ none
    → leb (length (a.stop_seq_pending ++ d)) a.stop_seq_max_keep ≡ true
    → apply_stop_sequence_filter a d ≡ (record a { stop_seq_pending = a.stop_seq_pending ++ d }, [])
unfolding apply_stop_sequence_filter
filter_short a d e h = rw (e, apply_stop_sequence_filter) (rw h)

abbrev pub split_at : StopState → Text → ℕ
split_at a d = length (a.stop_seq_pending ++ d) - a.stop_seq_max_keep

pub filter_long :
    (a : StopState) (d : Text)
    → find_match a.stop_sequences (a.stop_seq_pending ++ d) ≡ none
    → leb (length (a.stop_seq_pending ++ d)) a.stop_seq_max_keep ≡ false
    → apply_stop_sequence_filter a d ≡ (
      record a { stop_seq_pending = drop (split_at a d) (a.stop_seq_pending ++ d) },
      take (split_at a d) (a.stop_seq_pending ++ d),
    )
unfolding apply_stop_sequence_filter
filter_long a d e h = rw (e, apply_stop_sequence_filter) (rw h)

-- What is watched after a chunk without a match, whose text is `out` and `kept`.
pub Watch-next :
    (a : StopState) (sent d out kept : Text)
    → Watch a sent
    → find_match a.stop_sequences (a.stop_seq_pending ++ d) ≡ none
    → a.stop_seq_pending ++ d ≡ out ++ kept
    → ((sent ++ out) ≡ []) ⊎ (a.stop_seq_max_keep ≤ length kept)
    → Watch (record a { stop_seq_pending = kept }) (sent ++ out)
Watch-next a sent d out kept w e split enough = record {
  fits = w.fits;
  free =
      rw (append_assoc, ← split)
        (IsFree-append a.stop_sequences a.stop_seq_max_keep sent a.stop_seq_pending d w.fits w.free
          (find_match-none a.stop_sequences (a.stop_seq_pending ++ d) e) w.enough);
  enough = enough;
}
