-- ===== src/Reqconv/Tools/Keys.antt =====
-- The deferred tools by their keys.
use mathlib.Core.List.{Perm}
use mathlib.Core.List.Perm
use claude_code_kiro_models.Prelude.{
  false, List, [], ◌∷◌, none, some, Text, ◌≡◌, refl, ap, subst, if-intro, arith, text_eq,
  text_eq→eq, lookup, All, Bool-cases, inl, inr,
}
use claude_code_kiro_models.Reqconv.Tools.{Tool, without}

abbrev pub values : List (Text × Tool) → List Tool
values [] = []
values ((j, t) ∷ m) = t ∷ values m

-- No entry has the key.
abbrev pub Lacks : Text → List (Text × Tool) → Type 0
Lacks k = All (λ e. text_eq e.0 k ≡ false)

abbrev pub AreKeys : List (Text × Tool) → Type 0
AreKeys [] = Unit
AreKeys ((j, t) ∷ m) = Lacks j m × AreKeys m

pub without_lacking : (k : Text) (m : List (Text × Tool)) → Lacks k m → without k m ≡ m
unfolding without
without_lacking k [] h = refl
without_lacking k ((j, t) ∷ m) (h, hs) = rw h (ap (◌∷◌ (j, t)) (without_lacking k m hs))

pub without-All :
    (P : Text × Tool → Type 0) (k : Text) (m : List (Text × Tool)) → All P m → All P (without k m)
unfolding without
without-All P k [] h = tt
without-All P k ((j, t) ∷ m) (h, hs) =
    if-intro (All P) (text_eq j k) (λ _. without-All P k m hs) (λ _. (h, without-All P k m hs))

pub without-Lacks : (k : Text) (m : List (Text × Tool)) → Lacks k (without k m)
unfolding without
without-Lacks k [] = tt
without-Lacks k ((j, t) ∷ m) =
    if-intro (Lacks k) (text_eq j k) (λ _. without-Lacks k m) (λ other. (other, without-Lacks k m))

pub without-AreKeys : (k : Text) (m : List (Text × Tool)) → AreKeys m → AreKeys (without k m)
unfolding without
without-AreKeys k [] h = tt
without-AreKeys k ((j, t) ∷ m) (h, hs) =
    if-intro AreKeys (text_eq j k) (λ _. without-AreKeys k m hs)
      (λ _. (without-All (λ e. text_eq e.0 j ≡ false) k m h, without-AreKeys k m hs))

pub lookup_lacking : (k : Text) (m : List (Text × Tool)) → Lacks k m → lookup k m ≡ none
unfolding lookup
lookup_lacking k [] h = refl
lookup_lacking k ((j, t) ∷ m) (h, hs) = rw h (lookup_lacking k m hs)

pub values-without :
    (k : Text) (m : List (Text × Tool)) (t : Tool)
    → AreKeys m
    → lookup k m ≡ some t
    → Perm (values m) (t ∷ values (without k m))
unfolding lookup without
values-without k [] t h found = absurd (ground arith)
values-without k ((j, u) ∷ m) t (h, hs) found = elim (Bool-cases (text_eq j k)) [
  | inl same ↦
      let here : u ≡ t = ground (arith, found, same) in
      let lacks : Lacks k m = subst (λ i. Lacks i m) (text_eq→eq j k same) h in
      rw same (rw (without_lacking k m lacks) (Perm.cons' here (Perm.refl (values m))))
  | inr other ↦
      let later = values-without k m t hs (ground (arith, found, other)) in
      rw other (Perm.trans (Perm.cons u later) (Perm.swap t u (values (without k m))))
]

pub lacking_lookup : (k : Text) (m : List (Text × Tool)) → lookup k m ≡ none → Lacks k m
unfolding lookup
lacking_lookup k [] h = tt
lacking_lookup k ((j, t) ∷ m) h = elim (Bool-cases (text_eq j k)) [
  | inl same ↦ absurd (ground (arith, h, same))
  | inr other ↦ (other, lacking_lookup k m (ground (arith, h, other)))
]
