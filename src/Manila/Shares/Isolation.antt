-- ===== src/Manila/Shares/Isolation.antt =====
-- Which SVM an operation on a share is carried out on.
use arca_storage.Base.{
  ◌≡◌, refl, ap, sym, ◌∙◌, inl, inr, true, Option, none, some, Text, codes, list_eqb, nat_order,
  eqb_refl, list_eqb_iff, Option-cases, Bool-cases, arith,
}
use arca_storage.Results.{ok-injective, Result-cases, ok, err}
use arca_storage.Manila.Svms.{
  NetworkAllocator, SvmApi, CachedSvm, Driver, Answer, svm_name_of, allocate_per_project_svm,
}
use arca_storage.Manila.Svms.Ends.{Ends, name_for, allocate_per_project_svm-Ends}
use arca_storage.Manila.Shares.Volumes.{finish_share}
use arca_storage.Manila.Shares.Snapshots.{
  same_project, svm_for_clone, parent_of, create_share_from_snapshot,
}
use arca_storage.Manila.Shares.{
  Share, Snapshot, ShareApi, ShareConfig, get_metadata_value, filled, get_svm_for_share, needs_svm,
  ensure_svm_for_share, volume_of, snapshot_of,
}

-- A share's SVM where its project has one of its own.
project_svm :
    (cfg : ShareConfig) (share : Share) (p svm : Text)
    → cfg.strategy ≡ codes "per_project"
    → filled share.project_id ≡ some p
    → get_metadata_value share.metadata ≡ none
    → get_svm_for_share cfg share ≡ ok (svm_name_of cfg.svm_prefix p)
unfolding get_svm_for_share list_eqb
project_svm cfg share p svm e h bare = rw (get_svm_for_share, bare, e, h) refl

-- The SVM that the metadata names, or else this one.
abbrev pub svm_named : Option Text → Text → Text
svm_named none svm = svm
svm_named (some named) svm = named

-- The SVM of a share with a project of its own.
svm_of_share :
    (cfg : ShareConfig) (share : Share) (p svm : Text)
    → cfg.strategy ≡ codes "per_project"
    → filled share.project_id ≡ some p
    → get_svm_for_share cfg share ≡ ok svm
    → svm ≡ svm_named (get_metadata_value share.metadata) (svm_name_of cfg.svm_prefix p)
unfolding get_svm_for_share
svm_of_share cfg share p svm e h on = elim (Option-cases (get_metadata_value share.metadata)) [
  | inl bare ↦ rw bare (sym (ok-injective (sym (project_svm cfg share p svm e h bare) ∙ on)))
  | inr (t, named) ↦ grind (arith, named, on)
]

same_project-some :
    (a b : Option Text) → same_project a b ≡ true → (p : Text) × (a ≡ some p) × (b ≡ some p)
same_project-some none b h = absurd (grind arith)
same_project-some (some p) none h = absurd (grind arith)
same_project-some (some p) (some q) h = (p, refl, ap some (sym ((list_eqb_iff p q).0 h)))

clone-project :
    (cfg : ShareConfig) (share : Share) (parent : Option Share) (svm : Text)
    → cfg.strategy ≡ codes "per_project"
    → svm_for_clone cfg share parent ≡ ok svm
    → (s : Share) × (p : Text) × (parent ≡ some s)
      × (filled s.project_id ≡ some p)
      × (filled share.project_id ≡ some p)
      × (get_svm_for_share cfg s ≡ ok svm)
unfolding svm_for_clone
clone-project cfg share none svm e h = absurd (grind arith)
clone-project cfg share (some s) svm e h =
    elim (Bool-cases (same_project (filled s.project_id) (filled share.project_id))) [
      | inl same ↦
          let (p, here, there) = same_project-some _ _ same in
          (s, p, refl, here, there, grind (arith, eqb_refl))
      | inr apart ↦ absurd (grind (arith, eqb_refl))
    ]

filled-some : (o : Option Text) (t : Text) → filled o ≡ some t → o ≡ some t
filled-some o t e = ground arith

finish-path :
    {W : Type 0} (api : ShareApi W) (share : Share) (svm : Text) (export_path : Option Text) (w : W)
    (path : Text)
    → (finish_share api share svm export_path w).0 ≡ ok path
    → export_path ≡ some path
unfolding finish_share
finish-path api share svm export_path w path h = ground arith

-- With an SVM for each project, a share that is made from a snapshot is of the same project as the
-- snapshot's share, and the clone that succeeded was made on the SVM of that share: the project's
-- own, where the share's metadata names no other, and otherwise the one that the metadata names.
pub create_share_from_snapshot-isolated :
    {W : Type 0} (api : ShareApi W) (cfg : ShareConfig) (share : Share) (snapshot : Snapshot)
    (parent_share : Option Share) (w : W) (path : Text)
    → cfg.strategy ≡ codes "per_project"
    → (create_share_from_snapshot api cfg share snapshot parent_share w).0 ≡ ok path
    → (parent : Share) × (p svm : Text) × (parent_of parent_share snapshot ≡ some parent)
      × (filled parent.project_id ≡ some p)
      × (filled share.project_id ≡ some p)
      × (svm ≡ svm_named (get_metadata_value parent.metadata) (svm_name_of cfg.svm_prefix p))
      × ((api.clone_volume_from_snapshot
            (volume_of share.id)
            svm
            (volume_of snapshot.share_id)
            (snapshot_of snapshot.id)
            share.size
            w).0
          ≡ ok (some path))
unfolding create_share_from_snapshot
create_share_from_snapshot-isolated api cfg share snapshot parent_share w path e made =
    elim (Result-cases (svm_for_clone cfg share (parent_of parent_share snapshot))) [
      | inl (svm, found) ↦
          let (parent, p, is_parent, here, there, on) =
            clone-project cfg share (parent_of parent_share snapshot) svm e found in
          (
            parent,
            p,
            svm,
            is_parent,
            here,
            there,
            svm_of_share cfg parent p svm e here on,
            grind (arith, found, made, finish-path api share svm),
          )
      | inr (f, failed) ↦ absurd (grind arith)
    ]

Ends-name : (name svm : Text) (a : Answer) → Ends name a → a ≡ ok (some svm) → svm ≡ name
Ends-name name svm (ok none) h e = absurd h
Ends-name name svm (ok (some n)) h e = grind (arith, h, e)
Ends-name name svm (err x) h e = absurd (grind arith)

needs_svm-some :
    (cfg : ShareConfig) (share : Share) (p : Text)
    → needs_svm cfg share ≡ some p
    → (get_metadata_value share.metadata ≡ none)
      × (cfg.strategy ≡ codes "per_project")
      × (filled share.project_id ≡ some p)
needs_svm-some cfg share p e = grind (arith, list_eqb_iff)

-- An SVM that `create_share` finds or makes is the one on which the later operations look for the
-- share, as long as the cache has the project's SVM under its own name.
pub ensure_svm_for_share-same :
    {W : Type 0} (net : NetworkAllocator W) (svms : SvmApi W) (cfg : ShareConfig) (share : Share)
    (s : Driver W) (svm : Text)
    → ((p : Text) (entry : CachedSvm)
        → s.cache p ≡ some entry
        → entry.svm_name ≡ svm_name_of cfg.svm_prefix p)
    → (ensure_svm_for_share net svms cfg share s).0 ≡ ok (some svm)
    → get_svm_for_share cfg share ≡ ok svm
unfolding ensure_svm_for_share
ensure_svm_for_share-same net svms cfg share s svm cached found =
    elim (Option-cases (needs_svm cfg share)) [
      | inl e ↦ grind (arith, e, found)
      | inr (p, e) ↦
          let ends = allocate_per_project_svm-Ends net svms cfg.svm_prefix p s in
          let named =
            elim (Option-cases (s.cache p))
              as (λ _. name_for cfg.svm_prefix p s ≡ svm_name_of cfg.svm_prefix p) [
                | inl fresh ↦ rw (name_for, fresh) refl
                | inr (entry, hit) ↦ rw (name_for, hit) (cached p entry hit)
              ] in
          let (bare, per, here) = needs_svm-some cfg share p e in
          let same =
            Ends-name (name_for cfg.svm_prefix p s) svm
              (allocate_per_project_svm net svms cfg.svm_prefix p s).0 ends
              (grind (arith, e, found)) in
          project_svm cfg share p svm per here bare ∙ ap ok (sym (same ∙ named))
    ]
