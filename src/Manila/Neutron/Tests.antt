-- ===== src/Manila/Neutron/Tests.antt =====
-- Two ports of one SVM.
use mathlib.Core.List.{Memᴰ}
use mathlib.Core.List.Memᴰ
use arca_storage.Base.{
  ◌≡◌, ◌≢◌, refl, sym, ◌∙◌, ap, ◌⊎◌, inl, inr, true, Option, none, some, List, [], ◌∷◌, Text, codes,
  list_eqb, lex_le, nat_order, not-eqb→not-eq,
}
use arca_storage.Results.{err}
use arca_storage.Manila.Neutron.{Port, NeutronApi, bad_request}
use arca_storage.Manila.Neutron.Config.{text_or_none}
use arca_storage.Manila.Neutron.Ports.{consolidate_duplicate_ports}
use arca_storage.Manila.Neutron.Duplicates.{IsStamped, or_empty, consolidate-agrees}

-- A client that notes the ports that it is told to delete, and knows nothing.
abbrev noting : NeutronApi (List Text)
noting = record {
  list_ports = λ device w. (some [], w);
  create_port = λ body w. (err bad_request, w);
  delete_port = λ id w. (some tt, id ∷ w);
  show_network = λ id w. (none, w);
  show_subnet = λ id w. (none, w);
  list_extensions = λ w. (none, w);
}

abbrev port : Text → Option Text → Port
port id created_at = record {
  id = id;
  network_id = codes "net";
  created_at = created_at;
  fixed_ips = [];
}

abbrev older : Port
older = port (codes "b") (some (codes "2026-01-01T10:00:00Z"))

abbrev newer : Port
newer = port (codes "a") (some (codes "2026-01-01T10:00:07Z"))

either_port : (x a b : Port) → Memᴰ x (a ∷ b ∷ []) → (x ≡ a) ⊎ (x ≡ b)
either_port x a b m = elim (Memᴰ.cases_cons m) [
  | inl e ↦ inl e
  | inr m' ↦ inr (Memᴰ.eq_of_singleton m')
]

of_either : (x a b : Port) → (x ≡ a) ⊎ (x ≡ b) → Memᴰ x (a ∷ b ∷ [])
of_either x a b (inl e) = Memᴰ.head e
of_either x a b (inr e) = Memᴰ.tail (Memᴰ.head e)

swapped : (x a b : Port) → Memᴰ x (a ∷ b ∷ []) → Memᴰ x (b ∷ a ∷ [])
swapped x a b m = elim (either_port x a b m) [
  | inl e ↦ of_either x b a (inr e)
  | inr e ↦ of_either x b a (inl e)
]

some-none : {t : Text} → some t ≢ none
some-none e = cc

both-IsStamped : (x : Port) → Memᴰ x (newer ∷ older ∷ []) → IsStamped x
both-IsStamped x m none_given = elim (either_port x newer older m) [
  | inl e ↦ some-none (ap (λ p. text_or_none p.created_at) (sym e) ∙ none_given)
  | inr e ↦ some-none (ap (λ p. text_or_none p.created_at) (sym e) ∙ none_given)
]

times_differ : older.created_at ≢ newer.created_at
unfolding list_eqb
times_differ e =
    not-eqb→not-eq (codes "2026-01-01T10:00:00Z") (codes "2026-01-01T10:00:07Z") refl
      (ap or_empty e)

told_apart :
    (x y : Port)
    → Memᴰ x (newer ∷ older ∷ [])
    → Memᴰ y (newer ∷ older ∷ [])
    → x.created_at ≡ y.created_at
    → x ≡ y
told_apart x y m k e = elim (either_port x newer older m) [
  | inl p ↦ elim (either_port y newer older k) [
    | inl q ↦ p ∙ sym q
    | inr q ↦
        absurd (times_differ (sym (ap (λ z. z.created_at) (sym p) ∙ e ∙ ap (λ z. z.created_at) q)))
  ]
  | inr p ↦ elim (either_port y newer older k) [
    | inl q ↦ absurd (times_differ (ap (λ z. z.created_at) (sym p) ∙ e ∙ ap (λ z. z.created_at) q))
    | inr q ↦ p ∙ sym q
  ]
]

consolidate-agrees_example :
    (keep : Port) × ((consolidate_duplicate_ports noting
        (newer ∷ older ∷ [])
        (some (codes "a"))
        []).0
      ≡ some keep)
    × ((consolidate_duplicate_ports noting (older ∷ newer ∷ []) none []).0 ≡ some keep)
    × ((x : Port)
        → Memᴰ x (newer ∷ older ∷ [])
        → lex_le (or_empty keep.created_at) (or_empty x.created_at) ≡ true)
consolidate-agrees_example =
    consolidate-agrees noting newer older (older ∷ []) (newer ∷ []) (some (codes "a")) none [] []
      both-IsStamped told_apart (λ x. (swapped x newer older, swapped x older newer))

abbrev mine : Port
mine = port (codes "a") none

abbrev theirs : Port
theirs = port (codes "b") none
