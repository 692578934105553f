-- ===== src/Manila/Access/Reconcile.antt =====
-- What the reconciliation leaves in the backend.
use arca_storage.Base.{
  ◌≡◌, refl, ap, ◌≢◌, inl, inr, true, false, ◌||◌, Option, none, some, List, [], ◌∷◌, map, All,
  Text, is_empty, contains, list_eqb, nat_order, list_order, list_eqb_iff, Option-cases,
  if◌then◌else◌, arith,
}
use arca_storage.Results.{ok}
use arca_storage.Manila.Access.Dicts.{Dict, dict_set, look_up, has_key, look_up-set}
use arca_storage.Manila.Access.{
  Rule, ExportInfo, ExportApi, or_rw, normalize_access_to, client_key, is_ip, is_level,
  desired_entry, desired_from, current_from, reconcile_access_rules,
}
use arca_storage.Manila.Access.Loops.{Backend, client_of, Known, apply_changes-entries}

-- One entry of a listing: a client in its normal form, with the level that the backend keeps.
abbrev pub IsListed : (Text → Option Text) → (Text → Option Text) → ExportInfo → Type 0
IsListed ipv6_network entries e =
    (k : Text) × (a : Text) × (e.client ≡ some k)
    × (is_empty k ≡ false)
    × (client_key ipv6_network k ≡ k)
    × (e.access ≡ some a)
    × (entries k ≡ some a)

-- A listing has nothing but entries of the backend, and has them all.
abbrev pub Lists : (Text → Option Text) → (Text → Option Text) → List ExportInfo → Type 0
Lists ipv6_network entries es =
    All (IsListed ipv6_network entries) es
    × ((k a : Text) → entries k ≡ some a → contains k (map client_of es) ≡ true)

module _ (ipv6_network : Text → Option Text) (entries : Text → Option Text) where
  abbrev Sound : Dict (Text × Text) → Type 0
  Sound d = (k raw a : Text) → look_up k d ≡ some (raw, a) → (raw ≡ k) × (entries k ≡ some a)

  set-Sound :
      (d : Dict (Text × Text)) (k a : Text)
      → Sound d
      → entries k ≡ some a
      → Sound (dict_set k (k, a) d)
  set-Sound d k a sound h k' raw a' e =
      grind (arith, list_eqb_iff, look_up-set k' k (k, a) d, sound k' raw a')

  current_from-cons :
      (d : Dict (Text × Text)) (e : ExportInfo) (es : List ExportInfo) (k a : Text)
      → e.client ≡ some k
      → is_empty k ≡ false
      → client_key ipv6_network k ≡ k
      → e.access ≡ some a
      → current_from ipv6_network d (e ∷ es) ≡ current_from ipv6_network (dict_set k (k, a) d) es
  unfolding current_from
  current_from-cons d e es k a c full norm acc = grind (arith, norm)

  current_from-Sound :
      (d : Dict (Text × Text)) (es : List ExportInfo)
      → All (IsListed ipv6_network entries) es
      → Sound d
      → Sound (current_from ipv6_network d es)
        × ((k : Text)
            → has_key k (current_from ipv6_network d es)
              ≡ (has_key k d || contains k (map client_of es)))
  unfolding current_from
  current_from-Sound d [] all sound = (sound, λ k. grind arith)
  current_from-Sound d (e ∷ es) ((k, a, c, full, norm, acc, ent), all) sound =
      let rest = current_from-Sound (dict_set k (k, a) d) es all (set-Sound d k a sound ent) in
      let step = current_from-cons d e es k a c full norm acc in
      (
        rw step rest.0,
        λ k'. rw step (grind (arith, list_eqb_iff, rest.1 k', look_up-set k' k (k, a) d)),
      )

-- The level that the rules ask for: that of the last rule whose client has this normal form.
abbrev pub wanted : (Text → Option Text) → Text → List Rule → Option Text
wanted ipv6_network c [] = none
wanted ipv6_network c (rule ∷ rules) = elim (wanted ipv6_network c rules) [
  | some level ↦ some level
  | none ↦ elim (normalize_access_to ipv6_network rule.access_to) [
    | none ↦ none
    | some key ↦ if list_eqb key c then some (or_rw rule.access_level) else none
  ]
]

-- A rule that is valid.
abbrev pub IsValid : (Text → Option Text) → Rule → Type 0
IsValid ipv6_network rule =
    (is_ip rule.access_type ≡ true)
    × (is_level (or_rw rule.access_level) ≡ true)
    × (normalize_access_to ipv6_network rule.access_to ≢ none)

module _ (ipv6_network : Text → Option Text) where
  desired_from-wanted :
      (d : Dict Text) (rules : List Rule)
      → All (IsValid ipv6_network) rules
      → (d' : Dict Text) × (desired_from ipv6_network d rules ≡ ok d')
        × ((c : Text)
            → look_up c d'
              ≡ elim (wanted ipv6_network c rules) [ some l ↦ some l | none ↦ look_up c d ])
  unfolding desired_from desired_entry
  desired_from-wanted d [] all = (d, refl, λ c. refl)
  desired_from-wanted d (rule ∷ rules) ((ip, level, normal), all) =
      elim (Option-cases (normalize_access_to ipv6_network rule.access_to)) [
        | inl e ↦ absurd (normal e)
        | inr (k, e) ↦
            let (d', made, found) =
              desired_from-wanted (dict_set k (or_rw rule.access_level) d) rules all in
            (
              d',
              grind (arith, made),
              λ c. grind (arith, found c, look_up-set c k (or_rw rule.access_level) d),
            )
      ]

module _ {W : Type 0} {api : ExportApi W} {svm volume : Text} (b : Backend api svm volume)
    (ipv6_network : Text → Option Text) where
  listed-Known :
      (es : List ExportInfo) (w : W)
      → Lists ipv6_network (b.entries w) es
      → Known b (current_from ipv6_network [] es) w
  unfolding look_up
  listed-Known es w (all, complete) k =
      let (sound, has) =
        current_from-Sound ipv6_network (b.entries w) [] es all
          (λ k raw a e. absurd (grind arith)) in
      elim (Option-cases (look_up k (current_from ipv6_network [] es))) [
        | inl e ↦ elim (Option-cases (b.entries w k)) [
          | inl free ↦ inl (e, free)
          | inr (a, entry) ↦ absurd (grind (arith, has k, complete k a entry))
        ]
        | inr ((raw, a), e) ↦
            let (same, entry) = sound k raw a e in inr (a, rw e (ap (λ x. some (x, a)) same), entry)
      ]

  -- Where the rules are valid, the backend lists its exports completely, with each client in its
  -- normal form, and its calls work, a reconciliation succeeds and leaves exactly the entries that
  -- the rules ask for: a client has the level of the last rule for it, as the backend spells that
  -- level, and a client without a rule has no entry, whatever was there before.
  pub reconcile_access_rules-wanted :
      (rules : List Rule) (es : List ExportInfo) (w w' : W) (c : Text)
      → All (IsValid ipv6_network) rules
      → api.list_exports svm volume w ≡ (ok es, w')
      → Lists ipv6_network (b.entries w') es
      → let r = reconcile_access_rules api svm volume ipv6_network rules w in
        (r.0 ≡ ok tt)
        × (b.entries r.1 c
            ≡ elim (wanted ipv6_network c rules) [ none ↦ none | some l ↦ some (b.stored l) ])
  unfolding reconcile_access_rules look_up
  reconcile_access_rules-wanted rules es w w' c valid listed lists =
      let (d, made, found) = desired_from-wanted ipv6_network [] rules valid in
      let done =
        apply_changes-entries b d (current_from ipv6_network [] es) w' c
          (listed-Known es w' lists) in
      (grind (arith, made, listed), grind (arith, made, listed, found c))
