-- ===== src/Reqconv/ToolNames/RoundTrip.antt =====
-- What short names are restored to.
use claude_code_kiro_models.Prelude.{lookup}
use claude_code_kiro_models.Prelude.{
  true≢false, subst, is_some, Bool, true, false, List, [], ◌∷◌, Option, none, some, Text, ◌≡◌, refl,
  sym, ap, ◌∙◌, if◌then◌else◌, if-intro, leb, text_eq, text_eq_refl, text_eq→eq, arith, All, InList,
  Bool-cases, inl, inr, map,
}
use claude_code_kiro_models.Reqconv.ToolNames.{
  ToolNameMap, new_tool_name_map, max_tool_name_len, short_name, register, shorten, shorten_all,
  or_name, restore,
}
use claude_code_kiro_models.Respconv.ToolCalls.{byte_length}

members : (P : Text → Type 0) (ns : List Text) → ((n : Text) → InList n ns → P n) → All P ns
members P [] f = tt
members P (n ∷ ns) f = (f n (inl refl), members P ns (λ m h. f m (inr h)))

module _ (hex_digest : Text → Text) where
  -- The name that a tool has upstream.
  abbrev pub wire : Text → Text
  wire name = if leb (byte_length name) max_tool_name_len then name else short_name hex_digest name

  abbrev pub is_known : Text → ToolNameMap → Bool
  is_known short m = is_some (lookup short m.to_original)

  -- The maps hold short names of long names of the list, and every short name can be restored.
  IsGood : List Text → ToolNameMap → Type 0
  IsGood names m =
      ((k short : Text)
        → lookup k m.to_short ≡ some short
        → (short_name hex_digest k ≡ short) × (is_known short m ≡ true))
      × ((short n : Text)
          → lookup short m.to_original ≡ some n
          → (short_name hex_digest n ≡ short)
            × (InList n names × (leb (byte_length n) max_tool_name_len ≡ false)))

  register-IsGood :
      (names : List Text) (m : ToolNameMap) (name : Text) (o : Option Text)
      → InList name names
      → leb (byte_length name) max_tool_name_len ≡ false
      → IsGood names m
      → IsGood names (register hex_digest m name o).0
  unfolding register IsGood lookup
  register-IsGood names m name (some short) l long h = h
  register-IsGood names m name none l long (hs, ho) = (
    λ k short e. elim (Bool-cases (text_eq name k)) [
      | inl same ↦
          let there : short_name hex_digest name ≡ short = ground (arith, same) in
          (
            ap (short_name hex_digest) (sym (text_eq→eq name k same)) ∙ there,
            ground (arith, text_eq_refl short, there),
          )
      | inr other ↦
          let (short_of, known) = hs k short (ground (arith, other)) in
          (short_of, ground (arith, known))
    ],
    λ short n e. elim (Bool-cases (text_eq (short_name hex_digest name) short)) [
      | inl same ↦
          let there : name ≡ n = ground (arith, same) in
          (
            ap (short_name hex_digest) (sym there)
                ∙ text_eq→eq (short_name hex_digest name) short same,
            (
              subst (λ x. InList x names) there l,
              ap (λ x. leb (byte_length x) max_tool_name_len) (sym there) ∙ long,
            ),
          )
      | inr other ↦ ho short n (ground (arith, other))
    ],
  )

  shorten-IsGood :
      (names : List Text) (m : ToolNameMap) (name : Text)
      → InList name names
      → IsGood names m
      → IsGood names (shorten hex_digest m name).0
  unfolding shorten
  shorten-IsGood names m name l h =
      if-intro (λ (r : ToolNameMap × Text). IsGood names r.0)
        (leb (byte_length name) max_tool_name_len) (λ t. h)
        (λ f. register-IsGood names m name (lookup name m.to_short) l f h)

  -- The name that comes out, and that what is known stays known.
  register-wire :
      (names : List Text) (m : ToolNameMap) (name : Text) (o : Option Text)
      → lookup name m.to_short ≡ o
      → IsGood names m
      → ((register hex_digest m name o).1 ≡ short_name hex_digest name)
        × (is_known (short_name hex_digest name) (register hex_digest m name o).0 ≡ true)
  unfolding register IsGood
  register-wire names m name (some short) e (hs, ho) =
      let (short_of, known) = hs name short e in
      (sym short_of, ap (λ x. is_known x m) short_of ∙ known)
  register-wire names m name none e h =
      (refl, unfold lookup in ground (arith, text_eq_refl (short_name hex_digest name)))

  register_keeps :
      (m : ToolNameMap) (name : Text) (o : Option Text) (short : Text)
      → is_known short m ≡ true
      → is_known short (register hex_digest m name o).0 ≡ true
  unfolding register lookup
  register_keeps m name (some s) short h = h
  register_keeps m name none short h = ground (arith, h)

  shorten-wire :
      (names : List Text) (m : ToolNameMap) (name : Text)
      → IsGood names m
      → ((shorten hex_digest m name).1 ≡ wire name)
        × (leb (byte_length name) max_tool_name_len ≡ false
            → is_known (short_name hex_digest name) (shorten hex_digest m name).0 ≡ true)
  unfolding shorten
  shorten-wire names m name h = elim (Bool-cases (leb (byte_length name) max_tool_name_len)) [
    | inl fits ↦ rw fits (refl, λ q. absurd (true≢false q))
    | inr long ↦
        let (e, known) = register-wire names m name (lookup name m.to_short) refl h in
        rw long (e, λ q. known)
  ]

  shorten_keeps :
      (m : ToolNameMap) (name short : Text)
      → is_known short m ≡ true
      → is_known short (shorten hex_digest m name).0 ≡ true
  unfolding shorten
  shorten_keeps m name short h =
      if-intro (λ (r : ToolNameMap × Text). is_known short r.0 ≡ true)
        (leb (byte_length name) max_tool_name_len) (λ t. h)
        (λ f. register_keeps m name (lookup name m.to_short) short h)

  -- A name is registered if it is long.
  abbrev IsRegistered : ToolNameMap → Text → Type 0
  IsRegistered m name =
      leb (byte_length name) max_tool_name_len ≡ false
      → is_known (short_name hex_digest name) m ≡ true

  shorten_all_keeps :
      (m : ToolNameMap) (ns : List Text) (short : Text)
      → is_known short m ≡ true
      → is_known short (shorten_all hex_digest m ns).0 ≡ true
  unfolding shorten_all
  shorten_all_keeps m [] short h = h
  shorten_all_keeps m (n ∷ ns) short h =
      shorten_all_keeps (shorten hex_digest m n).0 ns short (shorten_keeps m n short h)

  shorten_all-wire :
      (names : List Text) (m : ToolNameMap) (ns : List Text)
      → All (λ n. InList n names) ns
      → IsGood names m
      → ((shorten_all hex_digest m ns).1 ≡ map wire ns)
        × (IsGood names (shorten_all hex_digest m ns).0
            × All (IsRegistered (shorten_all hex_digest m ns).0) ns)
  unfolding shorten_all
  shorten_all-wire names m [] l h = (refl, (h, tt))
  shorten_all-wire names m (n ∷ ns) (l, ls) h =
      let r = shorten hex_digest m n in
      let (e, registered) = shorten-wire names m n h in
      let (es, (good, all)) = shorten_all-wire names r.0 ns ls (shorten-IsGood names m n l h) in
      (
        ap (λ x. x ∷ (shorten_all hex_digest r.0 ns).1) e ∙ ap (◌∷◌ (wire n)) es,
        (good, (λ q. shorten_all_keeps r.0 ns _ (registered q), all)),
      )

  -- No two names of a list are the same upstream.
  abbrev pub AreTold : List Text → Type 0
  AreTold names = (a b : Text) → InList a names → InList b names → wire a ≡ wire b → a ≡ b

  restore_found :
      (names : List Text) (m : ToolNameMap) (a : Text) (o : Option Text)
      → IsGood names m
      → AreTold names
      → InList a names
      → IsRegistered m a
      → lookup (wire a) m.to_original ≡ o
      → or_name o (wire a) ≡ a
  unfolding IsGood
  restore_found names m a (some n) (hs, ho) told l registered e =
      let (short_of, (ln, long)) = ho (wire a) n e in
      let same : wire n ≡ wire a = rw long short_of in told n a ln l same
  restore_found names m a none (hs, ho) told l registered e =
      elim (Bool-cases (leb (byte_length a) max_tool_name_len)) [
        | inl fits ↦ rw fits refl
        | inr long ↦
            let short : wire a ≡ short_name hex_digest a = rw long refl in
            absurd (
              true≢false
                (sym (registered long) ∙ ap (λ x. is_known x m) (sym short) ∙ ap is_some e))
      ]

  restore-wire :
      (names : List Text) (m : ToolNameMap) (ns : List Text)
      → IsGood names m
      → AreTold names
      → All (λ n. InList n names) ns
      → All (IsRegistered m) ns
      → map (restore m) (map wire ns) ≡ ns
  unfolding restore
  restore-wire names m [] h told l r = refl
  restore-wire names m (n ∷ ns) h told (l, ls) (r, rs) =
      ap (λ x. x ∷ map (restore m) (map wire ns))
        (restore_found names m n (lookup (wire n) m.to_original) h told l r refl)
      ∙ ap (◌∷◌ n) (restore-wire names m ns h told ls rs)

  new-IsGood : (names : List Text) → IsGood names new_tool_name_map
  unfolding IsGood lookup
  new-IsGood names = (λ k short e. absurd (ground arith), λ short n e. absurd (ground arith))

  -- The names that Shorten gives to a list of tools are restored by the same maps to the names of
  -- the tools, if no two of them are the same upstream.
  pub restore-shorten_all :
      (names : List Text)
      → AreTold names
      → map
          (restore (shorten_all hex_digest new_tool_name_map names).0)
          (shorten_all hex_digest new_tool_name_map names).1
        ≡ names
  restore-shorten_all names told =
      let own = members (λ n. InList n names) names (λ n h. h) in
      let r = shorten_all hex_digest new_tool_name_map names in
      let (outs, (good, registered)) =
        shorten_all-wire names new_tool_name_map names own (new-IsGood names) in
      ap (map (restore r.0)) outs ∙ restore-wire names r.0 names good told own registered

  pub shorten_all-outs :
      (names : List Text) → (shorten_all hex_digest new_tool_name_map names).1 ≡ map wire names
  shorten_all-outs names =
      let own = members (λ n. InList n names) names (λ n h. h) in
      (shorten_all-wire names new_tool_name_map names own (new-IsGood names)).0
