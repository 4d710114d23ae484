-- ===== src/Respconv/Stop/Split.antt =====
-- Where a stop sequence stands in a text that came in two parts.
use mathlib.Core.Option
use native.Mathlib.Nat.{suc-add, zero-add}
use claude_code_kiro_models.Prelude.{
  starts_with-split, inr, ◌&&◌, inl, append_assoc, ◌==◌, ℕ, suc, ◌+◌, true, false, [], ◌∷◌, ◌++◌,
  Option, none, some, Text, index, starts_with, length, take, drop, ◌≡◌, refl, sym, ap, ◌∙◌, arith,
  ◌≤◌, Bool-cases, Option-cases, length-append,
}

pub index_here :
    (sub : Text) (c : ℕ) (s : Text) → starts_with (c ∷ s) sub ≡ true → index sub (c ∷ s) ≡ some 0
unfolding index
index_here sub c s h = rw (h, index)

pub index_later :
    (sub : Text) (c : ℕ) (s : Text)
    → starts_with (c ∷ s) sub ≡ false
    → index sub (c ∷ s) ≡ Option.map suc (index sub s)
unfolding index
index_later sub c s h = rw (h, index)

pub index-none_head :
    (sub : Text) (c : ℕ) (s : Text)
    → index sub (c ∷ s) ≡ none
    → (starts_with (c ∷ s) sub ≡ false) × (index sub s ≡ none)
index-none_head sub c s h = elim (Bool-cases (starts_with (c ∷ s) sub)) [
  | inl e ↦ ground (arith, index_here sub c s e)
  | inr e ↦ (e, ground (arith, index_later sub c s e))
]

-- A text at least as long as the sequence decides whether a longer one begins with it.
starts_with-append_long :
    (s sub d : Text) → length sub ≤ length s → starts_with (s ++ d) sub ≡ starts_with s sub
unfolding starts_with
starts_with-append_long s [] d h = refl
starts_with-append_long [] (c ∷ sub) d h = absurd (omega arith)
starts_with-append_long (x ∷ s) (c ∷ sub) d h =
    ap (λ b. (x == c) && b) (starts_with-append_long s sub d (omega arith))

abbrev pub shift : ℕ → Option ℕ → Option ℕ
shift n none = none
shift n (some i) = some (n + i)

shift_zero : (o : Option ℕ) → o ≡ shift 0 o
shift_zero none = refl
shift_zero (some i) = ap some (omega arith)

map-shift : (n : ℕ) (o : Option ℕ) → Option.map suc (shift n o) ≡ shift (suc n) o
map-shift n none = refl
map-shift n (some i) = ap some (omega arith)

-- Nothing in `sent ++ pending`, and `pending` holds all but one rune of a sequence: then what
-- comes next can only complete a sequence that begins in `pending`.
pub index-append :
    (sub sent pending d : Text)
    → index sub (sent ++ pending) ≡ none
    → length sub ≤ length pending + 1
    → index sub (sent ++ (pending ++ d)) ≡ shift (length sent) (index sub (pending ++ d))
index-append sub [] pending d h p = shift_zero (index sub (pending ++ d))
index-append sub (c ∷ sent) pending d h p =
    let (here, later) = index-none_head sub c (sent ++ pending) h in
    let e : starts_with (c ∷ (sent ++ (pending ++ d))) sub ≡ false =
      ap (λ x. starts_with (c ∷ x) sub) (sym (append_assoc sent pending d))
      ∙ starts_with-append_long (c ∷ (sent ++ pending)) sub d
          (omega (arith, length-append sent pending))
      ∙ here in
    index_later sub c (sent ++ (pending ++ d)) e
    ∙ ap (Option.map suc) (index-append sub sent pending d later p)
    ∙ map-shift (length sent) (index sub (pending ++ d))

-- A place where the sequence stands.
pub index-split :
    (sub s : Text) (i : ℕ) → index sub s ≡ some i → take i s ++ (sub ++ drop (i + length sub) s) ≡ s
unfolding starts_with
index-split [] [] i h = let e : i ≡ 0 = unfold index starts_with in ground arith in rw e
index-split (x ∷ sub) [] i h = unfold index starts_with in cc
index-split sub (c ∷ s) i h = elim (Bool-cases (starts_with (c ∷ s) sub)) [
  | inl here ↦
      let e : i ≡ 0 = ground (arith, index_here sub c s here) in
      rw (e, zero-add) (starts_with-split (c ∷ s) sub here)
  | inr later ↦ elim (Option-cases (index sub s)) [
    | inl missing ↦ ground (arith, index_later sub c s later)
    | inr (j, e) ↦
        let at_j : i ≡ suc j = ground (arith, index_later sub c s later) in
        rw (at_j, suc-add) (ap (◌∷◌ c) (index-split sub s j e))
  ]
]
