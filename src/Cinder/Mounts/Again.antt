-- ===== src/Cinder/Mounts/Again.antt =====
-- A mount that has succeeded is there, and is not made twice.
use arca_storage.Base.{
  ◌≡◌, sym, ap, ◌∙◌, inl, inr, Bool, true, false, not, ◌&&◌, none, some, List, [], ◌∷◌, ◌++◌, Text,
  All, all, nat_eqb, list_eqb, list_eqb_iff, eqb_refl, nat_order, Option-cases, arith,
}
use arca_storage.Results.{ok, err}
use arca_storage.Host.{Completed, succeeded}
use arca_storage.Cinder.{storage_error, finished, Node}
use arca_storage.Cinder.Mounts.{
  ShareInfo, mount_command, nfs_type_of, has_device, get_nfs_share_info, ensure_mount_point_exists,
  mount_refused, run_mount, mount_nfs,
}
use arca_storage.Cinder.Mounts.Table.{
  Entry, is_word, IsWritten, print, first_at, find_share-print, first_at-snoc,
}

abbrev ends_in_slash : Text → Bool
ends_in_slash [] = false
ends_in_slash (c ∷ []) = nat_eqb c b'/'
ends_in_slash (_ ∷ d ∷ t) = ends_in_slash (d ∷ t)

-- A path that the kernel shows as it is given: without blanks, backslashes and hashes, which it
-- writes as escapes, and without a slash at the end, which it leaves out.
abbrev pub is_plain_path : Text → Bool
is_plain_path t =
    is_word t && all (λ c. not (nat_eqb c 92) && not (nat_eqb c b'#')) t && not (ends_in_slash t)

-- What the helper relies on of `mount`, of /proc/mounts and of `os.makedirs`.
pub record Mounting {W : Type 0} (n : Node W) : Type 0 where
  -- The mounts of the machine, the oldest first, as /proc/mounts shows them.
  pub entries : W → List Entry
  pub shown : (w : W) → n.read_mounts w ≡ some (print (entries w))
  pub written : (w : W) → All IsWritten (entries w)
  -- A path that goes through no link, and has no dots
  pub is_direct : Text → Bool
  -- A `mount` that exits with 0 adds its mount behind the others.
  pub mounted :
      (w : W) (nfs_type options export_path mount_point : Text) (c : Completed)
      → is_plain_path export_path ≡ true
      → is_plain_path mount_point ≡ true
      → is_direct mount_point ≡ true
      → (n.run (mount_command nfs_type options export_path mount_point) 30 w).0 ≡ finished c
      → succeeded c ≡ true
      → (e : Entry) × (e.device ≡ export_path)
        × (e.place ≡ mount_point)
        × (entries (n.run (mount_command nfs_type options export_path mount_point) 30 w).1
            ≡ entries w ++ e ∷ [])
  -- A directory that has been made can be made again, also behind a `mount` on it.
  pub made_again :
      (w : W) (mount_point : Text)
      → (n.makedirs mount_point w).0 ≡ ok tt
      → (n.makedirs mount_point (n.makedirs mount_point w).1).0 ≡ ok tt
  pub made_below :
      (w : W) (nfs_type options export_path mount_point : Text)
      → (n.makedirs mount_point w).0 ≡ ok tt
      → (n.makedirs mount_point
          (n.run (mount_command nfs_type options export_path mount_point) 30 w).1).0
        ≡ ok tt
  pub mounts_kept : (w : W) (p : Text) → entries (n.makedirs p w).1 ≡ entries w

module _ {W : Type 0} (n : Node W) (m : Mounting n) where
  info-entries :
      (mount_point : Text) (w : W)
      → get_nfs_share_info n mount_point w ≡ first_at mount_point (m.entries w)
  unfolding get_nfs_share_info
  info-entries mount_point w =
      rw (get_nfs_share_info, m.shown w) (find_share-print mount_point (m.entries w) (m.written w))

  info_kept :
      (mount_point : Text) (w : W)
      → get_nfs_share_info n mount_point (n.makedirs mount_point w).1
        ≡ get_nfs_share_info n mount_point w
  info_kept mount_point w =
      info-entries mount_point (n.makedirs mount_point w).1
      ∙ ap (first_at mount_point) (m.mounts_kept w mount_point)
      ∙ sym (info-entries mount_point w)

  module _ (export_path mount_point options : Text) (plain : is_plain_path export_path ≡ true)
      (plain_point : is_plain_path mount_point ≡ true)
      (direct : m.is_direct mount_point ≡ true) where
    after_mount :
        (w : W) (c : Completed)
        → let r =
            n.run (mount_command (nfs_type_of options) options export_path mount_point) 30 w in
          get_nfs_share_info n mount_point w ≡ none
          → r.0 ≡ finished c
          → succeeded c ≡ true
          → has_device export_path (get_nfs_share_info n mount_point r.1) ≡ true
    after_mount w c none_before h s =
        let r = n.run (mount_command (nfs_type_of options) options export_path mount_point) 30 w in
        let (e, device, place, added) =
          m.mounted w (nfs_type_of options) options export_path mount_point c plain plain_point
            direct h s in
        let there =
          info-entries mount_point r.1
          ∙ ap (first_at mount_point) added
          ∙ first_at-snoc mount_point (m.entries w) e
              (sym (info-entries mount_point w) ∙ none_before) place in
        rw (there, device) (eqb_refl export_path)

    run_mount-has_device :
        (w : W)
        → get_nfs_share_info n mount_point w ≡ none
        → (run_mount n export_path mount_point options w).0 ≡ ok tt
        → has_device export_path
            (get_nfs_share_info n mount_point (run_mount n export_path mount_point options w).1)
          ≡ true
    unfolding run_mount mount_refused
    run_mount-has_device w none_before h = grind (arith, after_mount w)

    mount_nfs-has_device :
        (w : W)
        → (mount_nfs n export_path mount_point options w).0 ≡ ok tt
        → has_device export_path
            (get_nfs_share_info n mount_point (mount_nfs n export_path mount_point options w).1)
          ≡ true
    unfolding mount_nfs ensure_mount_point_exists
    mount_nfs-has_device w h = grind (arith, run_mount-has_device)

  mount_nfs-made :
      (export_path mount_point options : Text) (w : W)
      → (mount_nfs n export_path mount_point options w).0 ≡ ok tt
      → (n.makedirs mount_point (mount_nfs n export_path mount_point options w).1).0 ≡ ok tt
  unfolding mount_nfs run_mount ensure_mount_point_exists
  mount_nfs-made export_path mount_point options w h = grind (
    arith,
    m.made_again w mount_point,
    m.made_below (n.makedirs mount_point w).1 (nfs_type_of options) options export_path mount_point,
  )

  again :
      (export_path mount_point options : Text) (w : W)
      → (n.makedirs mount_point w).0 ≡ ok tt
      → has_device export_path (get_nfs_share_info n mount_point w) ≡ true
      → mount_nfs n export_path mount_point options w ≡ (ok tt, (n.makedirs mount_point w).1)
  unfolding mount_nfs ensure_mount_point_exists
  again export_path mount_point options w made h = grind (arith, info_kept mount_point w)

  -- Where another export is mounted, the call fails and runs no command.
  mount_nfs-occupied :
      (export_path mount_point options : Text) (w : W) (info : ShareInfo)
      → (n.makedirs mount_point w).0 ≡ ok tt
      → get_nfs_share_info n mount_point w ≡ some info
      → list_eqb info.device export_path ≡ false
      → mount_nfs n export_path mount_point options w
        ≡ (err storage_error, (n.makedirs mount_point w).1)
  unfolding mount_nfs ensure_mount_point_exists
  mount_nfs-occupied export_path mount_point options w info made shown other =
      grind (arith, shown, other, made, info_kept mount_point w)

  -- The first of the machine's mounts at the mount point is one of this export.
  abbrev pub IsMounted : Text → Text → W → Type 0
  IsMounted export_path mount_point w =
      (info : ShareInfo) × (first_at mount_point (m.entries w) ≡ some info)
      × (info.device ≡ export_path)

  seen :
      (export_path mount_point : Text) (w : W)
      → has_device export_path (get_nfs_share_info n mount_point w) ≡ true
      → IsMounted export_path mount_point w
  seen export_path mount_point w h = elim (Option-cases (get_nfs_share_info n mount_point w)) [
    | inl e ↦ absurd (grind (arith, h, e))
    | inr (info, e) ↦ (
      info,
      sym (info-entries mount_point w) ∙ e,
      (list_eqb_iff info.device export_path).0 (rw e at h),
    )
  ]

  -- A mount that succeeds leaves the export at its mount point, whoever mounted it, and a second
  -- mount of the export succeeds as well and does nothing but make the directory. Export and mount
  -- point are paths that the kernel shows as they are given.
  pub mount_nfs-IsMounted :
      (export_path mount_point options : Text) (w : W)
      → is_plain_path export_path ≡ true
      → is_plain_path mount_point ≡ true
      → m.is_direct mount_point ≡ true
      → let r = mount_nfs n export_path mount_point options w in
        r.0 ≡ ok tt
        → IsMounted export_path mount_point r.1
          × (mount_nfs n export_path mount_point options r.1
              ≡ (ok tt, (n.makedirs mount_point r.1).1))
  mount_nfs-IsMounted export_path mount_point options w plain plain_point direct h =
      let r = mount_nfs n export_path mount_point options w in
      let there =
        mount_nfs-has_device export_path mount_point options plain plain_point direct w h in
      (
        seen export_path mount_point r.1 there,
        again export_path mount_point options r.1
            (mount_nfs-made export_path mount_point options w h) there,
      )
