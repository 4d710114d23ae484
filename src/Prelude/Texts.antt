-- ===== src/Prelude/Texts.antt =====
-- Texts. A Go string that comes out of the JSON decoder is valid UTF-8, and the program cuts it at
-- rune boundaries only, so a text is the list of its runes; `strings.Index` and `strings.HasPrefix`
-- find the same places in runes as in bytes.
use Prim.Native.Char.{code}
use Prim.Native.Nat.{ℕ, suc, ◌≤◌}
use Prim.Native.String.{String}
use mathlib.Core.Bool.{Bool, true, false, ◌&&◌}
use mathlib.Core.List.{List, [], ◌∷◌, ◌++◌}
use mathlib.Core.Logic.{◌≢◌, ◌↔◌, inl, inr}
use mathlib.Core.Option
use mathlib.Core.Option.{Option, none, some}
use mathlib.Core.Path.{◌≡◌, refl, sym, ◌∙◌}
use native.Mathlib.Omega.{arith}
use text.Mathlib.Text.{◌==◌ as str_eq}
use text.Mathlib.TextEquality.{eq_iff}
use claude_code_kiro_models.Prelude.Tests.{
  ◌==◌, if◌then◌else◌, ==_iff, ==_self, Bool-cases, true≢false,
}
use claude_code_kiro_models.Prelude.Lists.{length, drop}

abbrev pub Text : Type 0
Text = List ℕ

abbrev pub codes : String → Text
codes String.[] = []
codes (String.◌∷◌ c s) = code c ∷ codes s

-- Equality of texts.
unfoldable pub text_eq : Text → Text → Bool
text_eq [] [] = true
text_eq [] (d ∷ t) = false
text_eq (c ∷ s) [] = false
text_eq (c ∷ s) (d ∷ t) = (c == d) && text_eq s t

pub text_eq_refl : (s : Text) → text_eq s s ≡ true
unfolding text_eq
text_eq_refl [] = refl
text_eq_refl (c ∷ s) = ground (arith, ==_self c, text_eq_refl s)

pub text_eq→eq : (s t : Text) → text_eq s t ≡ true → s ≡ t
unfolding text_eq
text_eq→eq [] [] h = refl
text_eq→eq [] (d ∷ t) h = cc
text_eq→eq (c ∷ s) [] h = cc
text_eq→eq (c ∷ s) (d ∷ t) h = ground (arith, ==_iff c d, text_eq→eq s t)

pub text_eq_iff : (s t : Text) → (text_eq s t ≡ true) ↔ (s ≡ t)
text_eq_iff s t = (text_eq→eq s t, λ e. rw e (text_eq_refl t))

pub str_eq_self : (s : String) → str_eq s s ≡ true
str_eq_self s = (eq_iff s s).1 refl

pub str_eq→eq : (s t : String) → str_eq s t ≡ true → s ≡ t
str_eq→eq s t h = (eq_iff s t).0 h

pub str_eq_other : (s t : String) → s ≢ t → str_eq s t ≡ false
str_eq_other s t h = elim (Bool-cases (str_eq s t)) [
  | inl same ↦ absurd (h ((eq_iff s t).0 same))
  | inr differs ↦ differs
]

pub str_eq_differs : (s t : String) → str_eq s t ≡ false → s ≢ t
str_eq_differs s t h e = true≢false (sym ((eq_iff s t).1 e) ∙ h)

-- strings.HasPrefix
unfoldable pub starts_with : Text → Text → Bool
starts_with s [] = true
starts_with [] (d ∷ p) = false
starts_with (c ∷ s) (d ∷ p) = (c == d) && starts_with s p

-- strings.Index: the first place at which `sub` stands in a text.
unfoldable pub index : Text → Text → Option ℕ
index sub [] = if starts_with [] sub then some 0 else none
index sub (c ∷ s) = if starts_with (c ∷ s) sub then some 0 else Option.map suc (index sub s)

-- strings.Contains of one rune.
unfoldable pub contains_rune : ℕ → Text → Bool
contains_rune r [] = false
contains_rune r (c ∷ s) = if c == r then true else contains_rune r s

pub starts_with-append : (p s : Text) → starts_with (p ++ s) p ≡ true
unfolding starts_with
starts_with-append [] s = refl
starts_with-append (c ∷ p) s = ground (arith, ==_self c, starts_with-append p s)

pub starts_with_extend : (s p t : Text) → starts_with s p ≡ true → starts_with (s ++ t) p ≡ true
unfolding starts_with
starts_with_extend s [] t h = refl
starts_with_extend [] (d ∷ p) t h = cc
starts_with_extend (c ∷ s) (d ∷ p) t h = ground (arith, starts_with_extend s p t)

pub starts_with-length : (s p : Text) → starts_with s p ≡ true → length p ≤ length s
unfolding starts_with
starts_with-length s [] h = omega arith
starts_with-length [] (d ∷ p) h = cc
starts_with-length (c ∷ s) (d ∷ p) h = ground (arith, starts_with-length s p)

pub starts_with-split : (s p : Text) → starts_with s p ≡ true → p ++ drop (length p) s ≡ s
unfolding starts_with
starts_with-split s [] h = refl
starts_with-split [] (d ∷ p) h = cc
starts_with-split (c ∷ s) (d ∷ p) h = ground (arith, ==_iff c d, starts_with-split s p)

-- strings.Join, the separator first
unfoldable pub join : Text → List Text → Text
join separator [] = []
join separator (t ∷ []) = t
join separator (t ∷ u ∷ ts) = t ++ (separator ++ join separator (u ∷ ts))

-- A Go map from texts, looked up.
unfoldable pub lookup {ℓ} : {A : Type ℓ} → Text → List (Text × A) → Option A
lookup k [] = none
lookup k ((j, a) ∷ m) = if text_eq j k then some a else lookup k m

-- slices.Contains
unfoldable pub contains : List Text → Text → Bool
contains [] t = false
contains (u ∷ us) t = if text_eq u t then true else contains us t
