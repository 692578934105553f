-- ===== src/Manila/Svms/Ends.antt =====
-- Every call ends with a name or an exception, and holds on to nothing that it gives up.
use arca_storage.Base.{ℕ, zero, suc, ◌+◌, ◌≤◌, ◌≡◌, Option, none, some, Text, nat_order, arith}
use arca_storage.Results.{ok, err}
use arca_storage.Standalone.{NetworkAllocation}
use arca_storage.Manila.Svms.{
  NetworkAllocator, SvmApi, Driver, Answer, adopt, attempts_from, svm_name_of, max_retries,
  find_or_make, allocate_per_project_svm,
}

-- The call ended with an exception, or with this name.
abbrev pub Ends : Text → Answer → Type 0
Ends name (ok none) = ⊥
Ends name (ok (some n)) = n ≡ name
Ends name (err e) = Unit

module _ {W : Type 0} (net : NetworkAllocator W) (api : SvmApi W) where
  adopt-Ends : (p n : Text) (s : Driver W) → Ends n (adopt net api p n s).0
  unfolding adopt
  adopt-Ends p n s = ground arith

  from-Ends :
      (p n : Text) (attempt left : ℕ) (held : Option NetworkAllocation) (s : Driver W)
      → 1 ≤ left
      → Ends n (attempts_from net api p n attempt left held s).0
  unfolding attempts_from
  from-Ends p n attempt zero held s h = absurd (omega arith)
  from-Ends p n attempt (suc left) held s h =
      grind (arith, adopt-Ends, from-Ends p n (attempt + 1) left)

module _ {W : Type 0} (net : NetworkAllocator W) (api : SvmApi W) where
  find_or_make-Ends : (p n : Text) (s : Driver W) → Ends n (find_or_make net api p n s).0
  unfolding find_or_make
  find_or_make-Ends p n s = grind (arith, from-Ends net api p n 0 max_retries none)

-- The name that a call gives a project: the cached one, or the one that its prefix makes.
abbrev pub name_for : {W : Type 0} → Text → Text → Driver W → Text
name_for svm_prefix p s = elim (s.cache p) [
  | some entry ↦ entry.svm_name
  | none ↦ svm_name_of svm_prefix p
]

-- Every call returns a name or raises an exception, whatever the allocator and the API answer: it
-- never runs out of attempts without a `return`. The name is the cached one where the project has
-- an entry, and otherwise the configured prefix with the project's id.
pub allocate_per_project_svm-Ends :
    {W : Type 0} (net : NetworkAllocator W) (api : SvmApi W) (svm_prefix p : Text) (s : Driver W)
    → Ends (name_for svm_prefix p s) (allocate_per_project_svm net api svm_prefix p s).0
unfolding allocate_per_project_svm
allocate_per_project_svm-Ends net api svm_prefix p s = grind (arith, find_or_make-Ends net api p)
