-- ===== src/Respconv/Stop/Sequences.antt =====
-- applyStopSequenceFilter over a stream: when it stops, and what it lets through.
use claude_code_kiro_models.Prelude.{
  All-append, starts_with, length-drop, subst, take-append-drop, ℕ, ◌+◌, true, false, List, [], ◌∷◌,
  ◌++◌, some, leb, if◌then◌else◌, Text, index, length, is_empty, take, drop, ◌≡◌, refl, sym, ap,
  ◌∙◌, ◌⊎◌, inl, inr, arith, ◌≤◌, ◌<◌, Bool-cases, Option-cases, joined, append_assoc, append-nil,
  length-append,
}
use claude_code_kiro_models.Respconv.Stop.Split.{index-split}
use claude_code_kiro_models.Respconv.Stop.{
  StopReason, StopState, find_match, apply_stop_sequence_filter, add_stop_sequence,
  add_stop_sequences, init_stop_sequences,
}
use claude_code_kiro_models.Respconv.Stop.Filter.{
  IsFree, find_match-some, Fits, regroup, Watch, filter_chunks, filter_chunks_stopped,
  filter_chunks_running, Outcome, Outcome-sent, filter_match, filter_short, split_at, filter_long,
  Watch-next,
}

filter_chunks_match :
    (a : StopState) (d s : Text) (i : ℕ) (ds : List Text)
    → a.local_stop ≡ false
    → find_match a.stop_sequences (a.stop_seq_pending ++ d) ≡ some (s, i)
    → filter_chunks a (d ∷ ds) ≡ (
      record a {
        stop_seq_pending = [];
        local_stop = true;
        reason = some StopReason.stop_sequence;
        matched = s;
      },
      take i (a.stop_seq_pending ++ d),
    )
filter_chunks_match a d s i ds h e =
    let b = record a {
      stop_seq_pending = [];
      local_stop = true;
      reason = some StopReason.stop_sequence;
      matched = s;
    } in
    let out = take i (a.stop_seq_pending ++ d) in
    filter_chunks_running a d ds b out h (filter_match a d s i e)
    ∙ ap (λ (q : StopState × Text). (q.0, out ++ q.1)) (filter_chunks_stopped b ds refl)
    ∙ ap (λ (t : Text). (b, t)) (append-nil out)

Outcome-next :
    (a : StopState) (sent d out kept : Text) (ds : List Text)
    → a.local_stop ≡ false
    → apply_stop_sequence_filter a d ≡ (record a { stop_seq_pending = kept }, out)
    → a.stop_seq_pending ++ d ≡ out ++ kept
    → Outcome a.stop_sequences
        (sent ++ out)
        ((sent ++ out) ++ (kept ++ joined ds))
        (filter_chunks (record a { stop_seq_pending = kept }) ds)
    → Outcome a.stop_sequences sent
        (sent ++ (a.stop_seq_pending ++ (d ++ joined ds)))
        (filter_chunks a (d ∷ ds))
Outcome-next a sent d out kept ds h e split later =
    let b = record a { stop_seq_pending = kept } in
    let whole : (sent ++ out) ++ (kept ++ joined ds)
        ≡ sent ++ (a.stop_seq_pending ++ (d ++ joined ds)) =
      regroup sent out kept (joined ds)
      ∙ ap (λ t. sent ++ (t ++ joined ds)) (sym split)
      ∙ ap (◌++◌ sent) (append_assoc a.stop_seq_pending d (joined ds)) in
    subst (Outcome a.stop_sequences sent (sent ++ (a.stop_seq_pending ++ (d ++ joined ds))))
      (sym (filter_chunks_running a d ds b out h e))
      (subst
        (λ t.
          Outcome a.stop_sequences sent t ((filter_chunks b ds).0, out ++ (filter_chunks b ds).1))
        whole (Outcome-sent a.stop_sequences sent out _ (filter_chunks b ds) later))

watch_chunks :
    (ds : List Text) (a : StopState) (sent : Text)
    → a.local_stop ≡ false
    → Watch a sent
    → Outcome a.stop_sequences sent (sent ++ (a.stop_seq_pending ++ joined ds)) (filter_chunks a ds)
watch_chunks [] a sent h w = unfold filter_chunks in inl (h, rw append-nil, rw append-nil w.free)
watch_chunks (d ∷ ds) a sent h w =
    let pending = a.stop_seq_pending ++ d in
    elim (Option-cases (find_match a.stop_sequences pending)) [
      | inl e ↦ elim (Bool-cases (leb (length pending) a.stop_seq_max_keep)) [
        | inl short ↦
            let w' = Watch-next a sent d [] pending w e refl (enough_short w.enough) in
            Outcome-next a sent d [] pending ds h (filter_short a d e short) refl
              (watch_chunks ds _ (sent ++ []) h w')
        | inr long ↦
            let out = take (split_at a d) pending in
            let kept = drop (split_at a d) pending in
            let split = sym (take-append-drop (split_at a d) pending) in
            let longer : a.stop_seq_max_keep ≤ length pending = ground arith in
            let enough : a.stop_seq_max_keep ≤ length kept =
              omega (arith, length-drop (split_at a d) pending) in
            let w' = Watch-next a sent d out kept w e split (inr enough) in
            Outcome-next a sent d out kept ds h (filter_long a d e long) split
              (watch_chunks ds _ (sent ++ out) h w')
      ]
      | inr ((s, i), e) ↦
          let rest = drop (i + length s) pending ++ joined ds in
          let found = find_match-some a.stop_sequences pending s i e in
          let whole : pending ++ joined ds ≡ take i pending ++ (s ++ rest) =
            ap (λ t. t ++ joined ds) (sym (index-split s pending i found.1))
            ∙ append_assoc (take i pending) (s ++ drop (i + length s) pending) (joined ds)
            ∙ ap (◌++◌ (take i pending))
                (append_assoc s (drop (i + length s) pending) (joined ds)) in
          subst (Outcome a.stop_sequences sent (sent ++ (a.stop_seq_pending ++ (d ++ joined ds))))
            (sym (filter_chunks_match a d s i ds h e))
            (inr (
              refl,
              refl,
              found.0,
              rest,
              ap (◌++◌ sent) (sym (append_assoc a.stop_seq_pending d (joined ds)) ∙ whole),
            ))
    ]
  where
    enough_short :
        (sent ≡ []) ⊎ (a.stop_seq_max_keep ≤ length a.stop_seq_pending)
        → ((sent ++ []) ≡ []) ⊎ (a.stop_seq_max_keep ≤ length (a.stop_seq_pending ++ d))
    enough_short (inl e) = inl (append-nil sent ∙ e)
    enough_short (inr long) = inr (omega (arith, length-append a.stop_seq_pending d))

-- initStopSequences keeps enough for each sequence.
Fits_mono : (seqs : List Text) (k l : ℕ) → k ≤ l → Fits k seqs → Fits l seqs
Fits_mono [] k l h f = tt
Fits_mono (s ∷ seqs) k l h f = (omega arith, Fits_mono seqs k l h f.1)

add_stop_sequence-Fits :
    (a : StopState) (s : Text)
    → Fits a.stop_seq_max_keep a.stop_sequences
    → Fits (add_stop_sequence a s).stop_seq_max_keep (add_stop_sequence a s).stop_sequences
unfolding add_stop_sequence
add_stop_sequence-Fits a [] f = f
add_stop_sequence-Fits a (c ∷ s) f =
    let keep = (add_stop_sequence a (c ∷ s)).stop_seq_max_keep in
    All-append (λ t. (0 < length t) × (length t ≤ keep + 1)) a.stop_sequences ((c ∷ s) ∷ [])
      (Fits_mono a.stop_sequences a.stop_seq_max_keep keep (ground arith) f)
      ((ground arith, ground arith), tt)

abbrev pub non_empty : List Text → List Text
non_empty [] = []
non_empty (s ∷ seqs) = if is_empty s then non_empty seqs else s ∷ non_empty seqs

-- What initStopSequences leaves of the state.
record Initialised (a b : StopState) (seqs : List Text) : Type 0 where
  sequences : b.stop_sequences ≡ a.stop_sequences ++ non_empty seqs
  running : b.local_stop ≡ a.local_stop
  same_pending : b.stop_seq_pending ≡ a.stop_seq_pending
  long_enough : Fits b.stop_seq_max_keep b.stop_sequences

add_stop_sequences-Initialised :
    (seqs : List Text) (a : StopState)
    → Fits a.stop_seq_max_keep a.stop_sequences
    → Initialised a (add_stop_sequences a seqs) seqs
unfolding add_stop_sequences
add_stop_sequences-Initialised [] a f = record {
  sequences = sym (append-nil _);
  running = refl;
  same_pending = refl;
  long_enough = f;
}
add_stop_sequences-Initialised ([] ∷ seqs) a f =
    let later = add_stop_sequences-Initialised seqs a f in
    unfold add_stop_sequence in
    record {
      sequences = later.sequences;
      running = later.running;
      same_pending = later.same_pending;
      long_enough = later.long_enough;
    }
add_stop_sequences-Initialised ((c ∷ s) ∷ seqs) a f =
    let later =
      add_stop_sequences-Initialised seqs (add_stop_sequence a (c ∷ s))
        (add_stop_sequence-Fits a (c ∷ s) f) in
    record {
      sequences =
          later.sequences
          ∙ unfold add_stop_sequence in
            append_assoc a.stop_sequences ((c ∷ s) ∷ []) (non_empty seqs);
      running = later.running ∙ unfold add_stop_sequence in refl;
      same_pending = later.same_pending ∙ unfold add_stop_sequence in refl;
      long_enough = later.long_enough;
    }

IsFree-nil : (keep : ℕ) (seqs : List Text) → Fits keep seqs → IsFree [] seqs
IsFree-nil keep [] f = tt
IsFree-nil keep ([] ∷ seqs) f = absurd (omega arith)
IsFree-nil keep ((c ∷ s) ∷ seqs) f = (unfold index starts_with in refl, IsFree-nil keep seqs f.1)

-- From a fresh state, whatever the chunks: either no non-empty stop sequence stands anywhere in the
-- reply, the response goes on, and what was sent and what is held make up the reply; or the
-- response has stopped with reason `stop_sequence`, and the reply is what was sent, the
-- matched sequence, which is a configured one, and a rest that is withheld.
pub filter_chunks-Outcome :
    (a : StopState) (seqs ds : List Text)
    → a.local_stop ≡ false
    → a.stop_seq_pending ≡ []
    → Outcome (non_empty seqs) [] (joined ds) (filter_chunks (init_stop_sequences a seqs) ds)
unfolding init_stop_sequences
filter_chunks-Outcome a seqs ds h p =
    let b = init_stop_sequences a seqs in
    let i =
      add_stop_sequences-Initialised seqs (record a { stop_sequences = []; stop_seq_max_keep = 0 })
        tt in
    let pending : b.stop_seq_pending ≡ [] = i.same_pending ∙ p in
    let watch : Watch b [] = record {
      fits = i.long_enough;
      free = rw pending (IsFree-nil b.stop_seq_max_keep b.stop_sequences i.long_enough);
      enough = inl refl;
    } in
    subst (λ t. Outcome (non_empty seqs) [] (t ++ joined ds) (filter_chunks b ds)) pending
      (subst (λ l. Outcome l [] (b.stop_seq_pending ++ joined ds) (filter_chunks b ds)) i.sequences
        (watch_chunks ds b [] (i.running ∙ h) watch))
