-- ===== src/Manila/Svms/NoLeak.antt =====
-- What a call has been handed by the network allocator and has not handed back.
use arca_storage.Base.{
  ℕ, zero, suc, ◌+◌, ◌≡◌, ◌≤◌, not, Option, none, some, List, [], ◌∷◌, filter, Text, list_eqb,
  is_empty, nat_order, eqb_refl, arith, if◌then◌else◌,
}
use arca_storage.Results.{Result, ok, err}
use arca_storage.Standalone.{NetworkAllocation}
use arca_storage.Manila.{ApiError}
use arca_storage.Manila.Svms.{
  NetworkAllocator, SvmApi, CachedSvm, Driver, Answer, clean_up, adopt, attempt_once, attempts_from,
  max_retries, find_or_make, allocate_per_project_svm,
}

-- What an allocator was asked, the last request first.
pub data Event : Type 0 where
  handed : Text → Event
  given_back : Text → Event

-- The allocations that were handed out and not given back.
abbrev pub owing : List Event → List Text
owing [] = []
owing (handed id ∷ log) = id ∷ owing log
owing (given_back id ∷ log) = filter (λ x. not (list_eqb x id)) (owing log)

-- The id that there is to give back: `if allocation and allocation.allocation_id`.
abbrev pub own_id : Option Text → List Text
own_id none = []
own_id (some id) = if is_empty id then [] else id ∷ []

abbrev pub note_all : List Text → List Event → List Event
note_all [] log = log
note_all (id ∷ ids) log = handed id ∷ note_all ids log

-- An allocator that writes down what it hands out and what it is given back.
abbrev pub logged_net : {W : Type 0} → NetworkAllocator W → NetworkAllocator (W × List Event)
logged_net net = record {
  allocate = λ name attempt (w, log).
      let (r, w') = net.allocate name attempt w in
      elim r [
        | ok a ↦ (ok a, (w', note_all (own_id a.allocation_id) log))
        | err e ↦ (err e, (w', log))
      ];
  deallocate = λ id (w, log). (net.deallocate id w, given_back id ∷ log);
}

-- The API writes nothing down.
abbrev pub quiet_api : {W : Type 0} → SvmApi W → SvmApi (W × List Event)
quiet_api api = record {
  get_svm = λ name (w, log). let (r, w') = api.get_svm name w in (r, (w', log));
  create_svm = λ name a (w, log). let (r, w') = api.create_svm name a w in (r, (w', log));
}

-- What a project's entry of the cache holds on to.
abbrev pub held_by : Option CachedSvm → List Text
held_by none = []
held_by (some entry) = own_id entry.allocation_id

-- What is owing after a call: what the cache holds where it answered, and nothing where it raised.
abbrev pub Keeps : {W : Type 0} → Text → Answer → Driver (W × List Event) → Type 0
Keeps p (ok name) s = owing s.world.1 ≡ held_by (s.cache p)
Keeps p (err e) s = owing s.world.1 ≡ []

module _ {W : Type 0} (net : NetworkAllocator W) (api : SvmApi W) where
  adopt-Keeps :
      (p n : Text) (s : Driver (W × List Event))
      → owing s.world.1 ≡ []
      → Keeps p
          (adopt (logged_net net) (quiet_api api) p n s).0
          (adopt (logged_net net) (quiet_api api) p n s).1
  unfolding adopt
  adopt-Keeps p n s h = grind (arith, eqb_refl)

  own_id-given_back :
      (a : NetworkAllocation) (w : W) (log : List Event)
      → owing log ≡ []
      → owing
          (clean_up
            (logged_net net)
            (quiet_api api)
            (some a)
            (w, note_all (own_id a.allocation_id) log)).1
        ≡ []
  unfolding clean_up
  own_id-given_back a w log h = grind (arith, eqb_refl)

  clean_up-idle :
      (held : Option NetworkAllocation) (w : W × List Event)
      → owing w.1 ≡ []
      → owing (clean_up (logged_net net) (quiet_api api) held w).1 ≡ []
  unfolding clean_up
  clean_up-idle held w h = grind arith

  -- What is owing behind an attempt: what its new entry holds, or nothing once it is cleaned up.
  abbrev Settled : Result (ApiError × Option NetworkAllocation) CachedSvm → W × List Event → Type 0
  Settled (ok entry) w = owing w.1 ≡ own_id entry.allocation_id
  Settled (err (e, held)) w = owing (clean_up (logged_net net) (quiet_api api) held w).1 ≡ []

  attempt_once-Settled :
      (p n : Text) (attempt : ℕ) (held : Option NetworkAllocation) (s : Driver (W × List Event))
      → owing s.world.1 ≡ []
      → let r = attempt_once (logged_net net) (quiet_api api) p n attempt held s in Settled r.0 r.1
  unfolding attempt_once
  attempt_once-Settled p n attempt held s h = grind (arith, own_id-given_back, clean_up-idle)

  from-Keeps :
      (p n : Text) (attempt left : ℕ) (held : Option NetworkAllocation)
      (s : Driver (W × List Event))
      → owing s.world.1 ≡ []
      → (1 ≤ left)
      → let r = attempts_from (logged_net net) (quiet_api api) p n attempt left held s in
        Keeps p r.0 r.1
  unfolding attempts_from
  from-Keeps p n attempt zero held s h l = absurd (omega arith)
  from-Keeps p n attempt (suc left) held s h l =
      let settled = attempt_once-Settled p n attempt held s h in
      grind (arith, adopt-Keeps, eqb_refl, from-Keeps p n (attempt + 1) left)

  find_or_make-Keeps :
      (p n : Text) (s : Driver (W × List Event))
      → owing s.world.1 ≡ []
      → let r = find_or_make (logged_net net) (quiet_api api) p n s in Keeps p r.0 r.1
  unfolding find_or_make
  find_or_make-Keeps p n s h = grind (arith, eqb_refl, from-Keeps p n 0 max_retries none)

  -- A call for a project that has no entry in the cache leaks no allocation: where it raises,
  -- everything that the network allocator handed out in it was given back afterwards; where it
  -- answers, all was given back but the allocation that the project's new entry in the cache holds.
  -- Given back is an allocation that the allocator was asked to take back: a failure of that is only
  -- logged.
  pub allocate_per_project_svm-Keeps :
      (svm_prefix p : Text) (s : Driver (W × List Event))
      → s.cache p ≡ none
      → s.world.1 ≡ []
      → let r = allocate_per_project_svm (logged_net net) (quiet_api api) svm_prefix p s in
        Keeps p r.0 r.1
  unfolding allocate_per_project_svm
  allocate_per_project_svm-Keeps svm_prefix p s uncached quiet = grind (arith, find_or_make-Keeps p)
