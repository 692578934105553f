-- ===== src/Services/Svms/Laws.antt =====
-- A request on an SVM changes the record of that SVM, and no record where it fails.
use arca_storage.Base.{inl, inr, refl, ℕ, ◌≡◌, Text, pos, arith}
use arca_storage.Results.{Result-cases, Error, ok, err, ◌>>=◌}
use arca_storage.Validators.{validate_name, validate_vlan, validate_ip_cidr}
use arca_storage.State.Files.{Svm, Files, upsert_svm}
use arca_storage.State.Files as F
use arca_storage.Host.{Host}
use arca_storage.Ganesha.{Config, Outside}
use arca_storage.Services.{Leaves, leaves}
use arca_storage.Services.Svms.{
  SvmCreate, SvmConfig, Site, SvmAnswer, svm_answer, make_svm, gateway_for, create_svm, delete_svm,
}

-- The answer is of a record that was stored, which is of the SVM asked for.
abbrev pub Stored : Text → SvmCreate → Files → SvmAnswer → Files → Type 0
Stored now d before a after =
    (v : Svm) × (a ≡ svm_answer now v)
    × (after ≡ upsert_svm now v before)
    × (v.name ≡ d.name)
    × (v.vlan_id ≡ d.vlan_id)
    × (validate_name d.name ≡ ok tt)
    × (validate_vlan (pos d.vlan_id) ≡ ok tt)
    × ((validate_ip_cidr d.ip_cidr >>= λ address. ok address.0) ≡ ok v.vip)
    × (gateway_for d.gateway d.ip_cidr ≡ ok v.gateway)

module _ {W : Type 0} (h : Host W) (sha256 : Text → ℕ) (o : Outside) (cfg : SvmConfig)
    (gcfg : Config) where
  make_svm-err :
      (now : Text) (d : SvmCreate) (s : Site W) (e : Error)
      → (make_svm h sha256 o cfg gcfg now d s).0 ≡ err e
      → (make_svm h sha256 o cfg gcfg now d s).1.store.files ≡ s.store.files
  unfolding make_svm
  make_svm-err now d s e failed = ground arith

  make_svm-ok :
      (now : Text) (d : SvmCreate) (s : Site W) (v : Svm)
      → (make_svm h sha256 o cfg gcfg now d s).0 ≡ ok v
      → ((make_svm h sha256 o cfg gcfg now d s).1.store.files ≡ upsert_svm now v s.store.files)
        × (v.name ≡ d.name)
        × (v.vlan_id ≡ d.vlan_id)
        × (validate_name d.name ≡ ok tt)
        × (validate_vlan (pos d.vlan_id) ≡ ok tt)
        × ((validate_ip_cidr d.ip_cidr >>= λ address. ok address.0) ≡ ok v.vip)
        × (gateway_for d.gateway d.ip_cidr ≡ ok v.gateway)
  unfolding make_svm
  make_svm-ok now d s v done = ground arith

  -- What a creation leaves, by what its making of the record leaves.
  created :
      (now : Text) (d : SvmCreate) (s : Site W)
      → Leaves
          (Stored now d s.store.files)
          s.store.files
          (create_svm h sha256 o cfg gcfg now d s).0
          (create_svm h sha256 o cfg gcfg now d s).1.store.files
  unfolding create_svm
  created now d s = elim (Result-cases (make_svm h sha256 o cfg gcfg now d s).0) [
    | inl (v, e) ↦
        let k = make_svm-ok now d s v e in
        rw (create_svm, e) (v, refl, k.0, k.1, k.2, k.3, k.4, k.5, k.6)
    | inr (x, e) ↦ rw (create_svm, e) (make_svm-err now d s x e)
  ]

  delete_svm-err :
      (name : Text) (s : Site W) (e : Error)
      → (delete_svm h sha256 o cfg gcfg name s).0 ≡ err e
      → (delete_svm h sha256 o cfg gcfg name s).1.store.files ≡ s.store.files
  unfolding delete_svm
  delete_svm-err name s e failed = ground arith

  delete_svm-ok :
      (name : Text) (s : Site W)
      → (delete_svm h sha256 o cfg gcfg name s).0 ≡ ok tt
      → (delete_svm h sha256 o cfg gcfg name s).1.store.files ≡ (F.delete_svm name s.store.files).0
  unfolding delete_svm
  delete_svm-ok name s done = ground arith

  -- An SVM request that raises, at whichever step, leaves the state files as they were. A creation
  -- that returns has found the name, the VLAN and the address valid, has stored the record of this
  -- SVM, with that address and with the gateway that was given or inferred, and answers that record
  -- without its interface and with the time; a removal that returns has removed the record.
  pub svm_requests-files :
      (now name : Text) (d : SvmCreate) (s : Site W)
      → Leaves
          (Stored now d s.store.files)
          s.store.files
          (create_svm h sha256 o cfg gcfg now d s).0
          (create_svm h sha256 o cfg gcfg now d s).1.store.files
        × Leaves
            (λ u after. after ≡ (F.delete_svm name s.store.files).0)
            s.store.files
            (delete_svm h sha256 o cfg gcfg name s).0
            (delete_svm h sha256 o cfg gcfg name s).1.store.files
  svm_requests-files now name d s = (
    created now d s,
    leaves _ (delete_svm h sha256 o cfg gcfg name s).0 (delete_svm-err name s)
        (λ u. delete_svm-ok name s),
  )
