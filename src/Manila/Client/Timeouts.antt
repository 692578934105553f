-- ===== src/Manila/Client/Timeouts.antt =====
-- openstack/manila/client.py: requests that time out, after which the client looks whether they were
-- carried out.
use arca_storage.Base.{
  ℕ, Bool, false, Option, none, some, List, [], ◌∷◌, Text, list_eqb, nat_order, if◌then◌else◌,
}
use arca_storage.Results.{Result, ok, err}
use arca_storage.Manila.{ApiError, share_not_found}

-- What becomes of `_make_request`: its data, `ArcaAPITimeout`, or any other exception.
pub data Sent (A : Type 0) : Type 0 where
  received : A → Sent A
  refused : ApiError → Sent A
  timed_out : Sent A

-- What the client raises.
pub data ClientError : Type 0 where
  api_error : ApiError → ClientError
  api_timeout : ClientError

-- The requests that the client sends; `D` is the dict of a volume or a snapshot.
pub record Requests (W D : Type 0) : Type 0 where
  pub post_volume : Text → Text → ℕ → W → Sent D × W
  pub list_volumes : Text → Text → W → Sent (List D) × W
  pub delete_volume : Text → Text → W → Sent (Unit {0}) × W
  pub post_snapshot : Text → Text → Text → W → Sent D × W
  pub list_snapshots : Text → Text → W → Sent (List D) × W
  pub delete_snapshot : Text → Text → Text → W → Sent (Unit {0}) × W

abbrev Answer : Type 0 → Type 0
Answer A = Result ClientError A

abbrev pub is_named : Text → Option Text → Bool
is_named name none = false
is_named name (some t) = list_eqb t name

module _ {D : Type 0} (name_of : D → Option Text) where
  -- The first that is named so.
  unfoldable pub find_named : Text → List D → Option D
  find_named name [] = none
  find_named name (d ∷ ds) =
      let rest = find_named name ds in if is_named name (name_of d) then some d else rest

-- `if not items: raise ArcaShareNotFound(...)`, and `items[0]`
abbrev first_item : {D : Type 0} → Sent (List D) → Answer D
first_item (received []) = err (api_error share_not_found)
first_item (received (d ∷ ds)) = ok d
first_item (refused e) = err (api_error e)
first_item timed_out = err api_timeout

-- A creation that timed out, by what the lookup gives.
abbrev created_after_all : {D : Type 0} → Answer D → Answer D
created_after_all (ok d) = ok d
created_after_all (err (api_error share_not_found)) = err api_timeout
created_after_all (err e) = err e

-- A removal that timed out, by what the lookup gives.
abbrev removed_after_all : {D : Type 0} → Answer D → Answer (Unit {0})
removed_after_all (ok d) = err api_timeout
removed_after_all (err (api_error share_not_found)) = ok tt
removed_after_all (err e) = err e

-- `except Exception`, with any failure of the listing
abbrev or_timeout : {D : Type 0} → (Text → List D → Option D) → Text → Sent (List D) → Answer D
or_timeout find name (received ds) = elim (find name ds) [ none ↦ err api_timeout | some d ↦ ok d ]
or_timeout find name (refused e) = err api_timeout
or_timeout find name timed_out = err api_timeout

abbrev unless_found :
    {D : Type 0} → (Text → List D → Option D) → Text → Sent (List D) → Answer (Unit {0})
unless_found find name (received ds) = elim (find name ds) [
  | none ↦ ok tt
  | some d ↦ err api_timeout
]
unless_found find name (refused e) = err (api_error e)
unless_found find name timed_out = err api_timeout

module _ {W D : Type 0} (q : Requests W D) (name_of : D → Option Text) where
  unfoldable pub get_volume : Text → Text → W → Answer D × W
  get_volume name svm w = let (r, w') = q.list_volumes svm name w in (first_item r, w')

  unfoldable pub create_volume : Text → Text → ℕ → W → Answer D × W
  unfolding get_volume
  create_volume name svm size_gib w =
      let (r, w1) = q.post_volume name svm size_gib w in
      elim r [
        | received d ↦ (ok d, w1)
        | refused e ↦ (err (api_error e), w1)
        | timed_out ↦ let (g, w2) = get_volume name svm w1 in (created_after_all g, w2)
      ]

  unfoldable pub delete_volume : Text → Text → W → Answer (Unit {0}) × W
  unfolding get_volume
  delete_volume name svm w =
      let (r, w1) = q.delete_volume name svm w in
      elim r [
        | received _ ↦ (ok tt, w1)
        | refused e ↦ (err (api_error e), w1)
        | timed_out ↦ let (g, w2) = get_volume name svm w1 in (removed_after_all g, w2)
      ]

  unfoldable pub create_snapshot : Text → Text → Text → W → Answer D × W
  unfolding find_named
  create_snapshot name svm volume w =
      let (r, w1) = q.post_snapshot name svm volume w in
      elim r [
        | received d ↦ (ok d, w1)
        | refused e ↦ (err (api_error e), w1)
        | timed_out ↦
            let (l, w2) = q.list_snapshots svm volume w1 in
            (or_timeout (find_named name_of) name l, w2)
      ]

  unfoldable pub delete_snapshot : Text → Text → Text → W → Answer (Unit {0}) × W
  unfolding find_named
  delete_snapshot name svm volume w =
      let (r, w1) = q.delete_snapshot name svm volume w in
      elim r [
        | received _ ↦ (ok tt, w1)
        | refused e ↦ (err (api_error e), w1)
        | timed_out ↦
            let (l, w2) = q.list_snapshots svm volume w1 in
            (unless_found (find_named name_of) name l, w2)
      ]
