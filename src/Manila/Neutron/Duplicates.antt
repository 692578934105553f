-- ===== src/Manila/Neutron/Duplicates.antt =====
-- Which of an SVM's ports is kept, and which network a new port is on.
use mathlib.Core.List.{Memᴰ}
use mathlib.Core.List.Memᴰ
use native.Mathlib.Nat.{mod-lt, mod-eq_of_lt}
use arca_storage.Base.{
  ℕ, ◌≡◌, ◌≢◌, refl, ap, sym, ◌∙◌, inl, inr, true, false, Option, none, some, List, [], ◌∷◌, Text,
  lex_le, lex_total, lex_antisym, lex_trans, nat_order, is_empty, eqb_refl, length, get_elem?,
  get_elem?-lt, ltb, ◌%◌, ◌+◌, ◌<◌, if◌then◌else◌, list_eqb_iff, Bool-cases, Option-cases, arith,
}
use arca_storage.Manila.Neutron.{Port, NeutronApi, CachedNetwork, NeutronAllocator}
use arca_storage.Manila.Neutron.Config.{text_or_none}
use arca_storage.Manila.Neutron.Ports.{
  sort_key, insert_port, sort_ports, delete_ports, select_network_round_robin,
  consolidate_duplicate_ports,
}

lex_refl : (t : Text) → lex_le t t ≡ true
lex_refl t = elim (Bool-cases (lex_le t t)) [ inl h ↦ h | inr h ↦ lex_total t t h ]

-- The first port of a sorted list has the least key.
abbrev Least : Option Text → Port → List Port → Type 0
Least n p ps = (q : Port) → Memᴰ q ps → lex_le (sort_key n p) (sort_key n q) ≡ true

sort-Least :
    (n : Option Text) (p : Port) (ps : List Port)
    → (keep : Port) × (rest : List Port) × (sort_ports n (p ∷ ps) ≡ keep ∷ rest)
      × Memᴰ keep (p ∷ ps)
      × Least n keep (p ∷ ps)
unfolding sort_ports insert_port
sort-Least n p [] =
    (p, [], refl, Memᴰ.head refl, λ q m. rw (Memᴰ.eq_of_singleton m) (lex_refl (sort_key n p)))
sort-Least n p (q ∷ qs) =
    let (keep, rest, e, here, least) = sort-Least n q qs in
    elim (Bool-cases (lex_le (sort_key n p) (sort_key n keep))) [
      | inl before ↦ (
        p,
        keep ∷ rest,
        rw e (rw before refl),
        Memᴰ.head refl,
        λ x m. elim (Memᴰ.cases_cons m) [
          | inl same ↦ rw same (lex_refl (sort_key n p))
          | inr m' ↦ lex_trans (sort_key n p) (sort_key n keep) (sort_key n x) before (least x m')
        ],
      )
      | inr after ↦ (
        keep,
        insert_port n p rest,
        rw e (rw after refl),
        Memᴰ.tail here,
        λ x m. elim (Memᴰ.cases_cons m) [
          | inl same ↦ rw same (lex_total (sort_key n p) (sort_key n keep) after)
          | inr m' ↦ least x m'
        ],
      )
    ]

abbrev pub or_empty : Option Text → Text
or_empty none = []
or_empty (some t) = t

-- The port has a time of creation.
abbrev pub IsStamped : Port → Type 0
IsStamped p = text_or_none p.created_at ≢ none

given-text : (o : Option Text) (t : Text) → text_or_none o ≡ some t → o ≡ some t
given-text o t e = ground arith

stamped_key :
    (p : Port)
    → IsStamped p
    → (t : Text) × (p.created_at ≡ some t) × ((n : Option Text) → sort_key n p ≡ b'1' ∷ t)
unfolding sort_key
stamped_key p h = elim (Option-cases (text_or_none p.created_at)) [
  | inl e ↦ absurd (h e)
  | inr (t, e) ↦ (t, given-text p.created_at t e, λ n. rw (sort_key, e) refl)
]

keys_le :
    (p q : Port) (n : Option Text) (s t : Text)
    → sort_key n p ≡ s
    → sort_key n q ≡ t
    → lex_le (sort_key n p) (sort_key n q) ≡ true
    → lex_le s t ≡ true
keys_le p q n s t e e' h = cc

tails_le : (s t : Text) → lex_le (b'1' ∷ s) (b'1' ∷ t) ≡ true → lex_le s t ≡ true
unfolding lex_le
tails_le s t h = ground arith

-- Where all the ports have a time of creation, and no two ports have the same, the port that is
-- kept is the oldest, whatever the order of the listing and whichever of them the caller made
-- itself: two callers that see the same ports keep the same one.
pub consolidate-agrees :
    {W : Type 0} (api : NeutronApi W) (p q : Port) (ps qs : List Port) (n m : Option Text) (w v : W)
    → ((x : Port) → Memᴰ x (p ∷ ps) → IsStamped x)
    → ((x y : Port) → Memᴰ x (p ∷ ps) → Memᴰ y (p ∷ ps) → x.created_at ≡ y.created_at → x ≡ y)
    → ((x : Port) → (Memᴰ x (p ∷ ps) → Memᴰ x (q ∷ qs)) × (Memᴰ x (q ∷ qs) → Memᴰ x (p ∷ ps)))
    → (keep : Port) × ((consolidate_duplicate_ports api (p ∷ ps) n w).0 ≡ some keep)
      × ((consolidate_duplicate_ports api (q ∷ qs) m v).0 ≡ some keep)
      × ((x : Port)
          → Memᴰ x (p ∷ ps)
          → lex_le (or_empty keep.created_at) (or_empty x.created_at) ≡ true)
unfolding consolidate_duplicate_ports
consolidate-agrees api p q ps qs n m w v stamped distinct same =
    let (a, rest, e, a_in, a_least) = sort-Least n p ps in
    let (b, rest', e', b_in, b_least) = sort-Least m q qs in
    let b_in' = (same b).1 b_in in
    let (s, s_is, s_key) = stamped_key a (stamped a a_in) in
    let (t, t_is, t_key) = stamped_key b (stamped b b_in') in
    let a_le : lex_le (b'1' ∷ s) (b'1' ∷ t) ≡ true =
      keys_le a b n (b'1' ∷ s) (b'1' ∷ t) (s_key n) (t_key n) (a_least b b_in') in
    let b_le : lex_le (b'1' ∷ t) (b'1' ∷ s) ≡ true =
      keys_le b a m (b'1' ∷ t) (b'1' ∷ s) (t_key m) (s_key m) (b_least a ((same a).0 a_in)) in
    let one : b ≡ a =
      distinct b a b_in' a_in
        (t_is ∙ ap some (lex_antisym t s (tails_le t s b_le) (tails_le s t a_le)) ∙ sym s_is) in
    (
      a,
      rw (consolidate_duplicate_ports, e) refl,
      rw (consolidate_duplicate_ports, e') (ap some one),
      λ x x_in.
          let (u, u_is, u_key) = stamped_key x (stamped x x_in) in
          let below : lex_le (b'1' ∷ s) (b'1' ∷ u) ≡ true =
            keys_le a x n (b'1' ∷ s) (b'1' ∷ u) (s_key n) (u_key n) (a_least x x_in) in
          rw (s_is, u_is) (tails_le s u below),
    )

-- Where Neutron gives the ports no time of creation, two callers that have each made a port of the
-- same SVM, and then list both, each keep their own port and delete the other's.
pub consolidate-crosses :
    {W : Type 0} (api : NeutronApi W) (p q : Port) (w : W)
    → text_or_none p.created_at ≡ none
    → text_or_none q.created_at ≡ none
    → is_empty p.id ≡ false
    → is_empty q.id ≡ false
    → p.id ≢ q.id
    → let mine = consolidate_duplicate_ports api (p ∷ q ∷ []) (some p.id) w in
      let theirs = consolidate_duplicate_ports api (p ∷ q ∷ []) (some q.id) w in
      (mine ≡ (some p, (api.delete_port q.id w).1))
      × (theirs ≡ (some q, (api.delete_port p.id w).1))
unfolding consolidate_duplicate_ports sort_ports insert_port sort_key delete_ports lex_le
consolidate-crosses api p q w old_p old_q full_p full_q apart =
    (grind (arith, list_eqb_iff, eqb_refl), grind (arith, list_eqb_iff, eqb_refl))

length-full : (ns : List CachedNetwork) → ns ≢ [] → 0 < length ns
length-full [] h = absurd (h refl)
length-full (n ∷ ns) h = omega arith

selected :
    (ns : List CachedNetwork) (o : Option CachedNetwork) (network : CachedNetwork)
    → o ≡ some network
    → ns ≢ []
    → elim ns as (λ _. Option CachedNetwork) [ [] ↦ none | _ ∷ _ ↦ o ] ≡ some network
selected [] o network found h = absurd (h refl)
selected (n ∷ ns) o network found h = found

-- Where a network is configured, one of the list is always selected, whatever the counter, the
-- number of the attempt and the random offset; a first attempt takes the one at the counter's place
-- in the rotation.
pub select_network_round_robin-valid :
    {W : Type 0} (offset retry_attempt : ℕ) (s : NeutronAllocator W)
    → s.networks ≢ []
    → (i : ℕ) × (network : CachedNetwork) × (i < length s.networks)
      × (get_elem? s.networks i ≡ some network)
      × (select_network_round_robin offset retry_attempt s ≡ some network)
      × ((retry_attempt ≡ 0) → i ≡ s.network_counter % length s.networks)
unfolding select_network_round_robin
select_network_round_robin-valid offset retry_attempt s some_network =
    let n = length s.networks in
    let start = s.network_counter % n in
    let i = (if ltb 0 retry_attempt then (start + offset) % n else start) % n in
    let full = length-full s.networks some_network in
    let below = mod-lt (if ltb 0 retry_attempt then (start + offset) % n else start) full in
    let (network, found) = get_elem?-lt s.networks i below in
    (
      i,
      network,
      below,
      found,
      selected s.networks _ network found some_network,
      λ first. rw first (mod-eq_of_lt (mod-lt s.network_counter full)),
    )
