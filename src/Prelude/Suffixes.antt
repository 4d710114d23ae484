-- ===== src/Prelude/Suffixes.antt =====
-- Go's strings.CutSuffix, HasSuffix, TrimSuffix and EqualFold.

use Prim.Native.Nat.{ℕ, ◌+◌}
use mathlib.Core.Bool.{Bool, true, false, ◌&&◌}
use mathlib.Core.List.{[], ◌∷◌, ◌++◌, map}
use mathlib.Core.Logic.{inl, inr}
use mathlib.Core.Option.{Option, none, some}
use mathlib.Core.Path.{◌≡◌, refl, sym, ap, ◌∙◌}
use native.Mathlib.Omega.{arith}
use claude_code_kiro_models.Prelude.Lists.{length, is_empty, length-append}
use claude_code_kiro_models.Prelude.Tests.{leb, if◌then◌else◌, Bool-cases}
use claude_code_kiro_models.Prelude.Texts.{Text, text_eq, text_eq→eq, text_eq_refl}

abbrev pub cons_some : ℕ → Option Text → Option Text
cons_some c none = none
cons_some c (some s) = some (c ∷ s)

unfoldable pub cut_suffix : Text → Text → Option Text
cut_suffix suffix [] = if is_empty suffix then some [] else none
cut_suffix suffix (c ∷ s) =
    let rest = cons_some c (cut_suffix suffix s) in if text_eq (c ∷ s) suffix then some [] else rest

abbrev pub is_some {ℓ} : {A : Type ℓ} → Option A → Bool
is_some none = false
is_some (some a) = true

unfoldable pub has_suffix : Text → Text → Bool
has_suffix suffix s = is_some (cut_suffix suffix s)

abbrev pub or_else {ℓ} : {A : Type ℓ} → Option A → A → A
or_else none a = a
or_else (some b) a = b

unfoldable pub trim_suffix : Text → Text → Text
trim_suffix suffix s = or_else (cut_suffix suffix s) s

-- EqualFold of ASCII texts.
unfoldable pub fold_rune : ℕ → ℕ
fold_rune r = if leb 65 r && leb r 90 then r + 32 else r

unfoldable pub equal_fold : Text → Text → Bool
equal_fold s t = text_eq (map fold_rune s) (map fold_rune t)

cons_some-inv :
    (c : ℕ) (o : Option Text) (b : Text)
    → cons_some c o ≡ some b
    → (a : Text) × ((o ≡ some a) × (b ≡ c ∷ a))
cons_some-inv c none b h = ground arith
cons_some-inv c (some a) b h = (a, (refl, ground arith))

pub cut_suffix_sound : (suffix s b : Text) → cut_suffix suffix s ≡ some b → s ≡ b ++ suffix
unfolding cut_suffix
cut_suffix_sound [] [] b h = ground arith
cut_suffix_sound (d ∷ suffix) [] b h = ground arith
cut_suffix_sound suffix (c ∷ s) b h = elim (Bool-cases (text_eq (c ∷ s) suffix)) [
  | inl same ↦
      let e : b ≡ [] = ground (arith, same) in
      text_eq→eq (c ∷ s) suffix same ∙ ap (λ x. x ++ suffix) (sym e)
  | inr other ↦
      let (a, (ea, eb)) = cons_some-inv c (cut_suffix suffix s) b (ground (arith, other)) in
      ap (◌∷◌ c) (cut_suffix_sound suffix s a ea) ∙ ap (λ x. x ++ suffix) (sym eb)
]

pub cut_suffix-append : (suffix b : Text) → cut_suffix suffix (b ++ suffix) ≡ some b
unfolding cut_suffix
cut_suffix-append [] [] = refl
cut_suffix-append (d ∷ suffix) [] = ground (arith, text_eq_refl (d ∷ suffix))
cut_suffix-append suffix (c ∷ b) = elim (Bool-cases (text_eq (c ∷ (b ++ suffix)) suffix)) [
  | inl same ↦ absurd (
      omega (arith, ap length (text_eq→eq (c ∷ (b ++ suffix)) suffix same), length-append b suffix))
  | inr other ↦ ground (arith, other, cut_suffix-append suffix b)
]

pub has_suffix-append : (suffix b : Text) → has_suffix suffix (b ++ suffix) ≡ true
unfolding has_suffix
has_suffix-append suffix b = ap is_some (cut_suffix-append suffix b)
