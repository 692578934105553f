-- ===== src/Host/Xfs.antt =====
-- cli/lib/xfs.py: XFS file systems.
use arca_storage.Base.{
  Bool, not, ◌&&◌, List, [], ◌∷◌, ◌++◌, Text, codes, lower, has_text, if◌then◌else◌,
}
use arca_storage.Results.{
  device_missing, not_mounted, format_failed, mount_failed, umount_failed, grow_failed, ok,
}
use arca_storage.Actions.{Action, pure, ◌>>=◌, ◌>>◌, raise_when}
use arca_storage.Host.{Completed, Host, succeeded, failed, command}

abbrev pub mkfs : List Text → Text → List Text
mkfs options device =
    (codes "mkfs.xfs"
      ∷ codes "-b"
      ∷ codes "size=4096"
      ∷ codes "-m"
      ∷ codes "crc=1,finobt=1"
      ∷ codes "-i"
      ∷ codes "size=512,maxpct=25"
      ∷ codes "-d"
      ∷ codes "agcount=32,su=256k,sw=1"
      ∷ [])
    ++ (options ++ device ∷ [])

abbrev pub mountpoint : Text → List Text
mountpoint mount_point = codes "mountpoint" ∷ codes "-q" ∷ mount_point ∷ []

abbrev pub mount_command : Text → Text → List Text
mount_command device mount_point =
    codes "mount"
    ∷ codes "-o"
    ∷ codes "rw,noatime,nodiratime,logbsize=256k,inode64"
    ∷ device
    ∷ mount_point
    ∷ []

-- The device holds an XFS file system already.
abbrev pub says_xfs : Completed → Bool
says_xfs r = succeeded r && has_text (codes "xfs") (lower r.stdout)

module _ {W : Type 0} (h : Host W) where
  unfoldable pub format_xfs : Text → List Text → Action W (Unit {0})
  format_xfs device options w =
      (do
        raise_when (not (h.exists device w)) (device_missing device)
        result ← command h (codes "blkid" ∷ device ∷ [])
        if says_xfs result then pure tt else do
          made ← command h (mkfs options device)
          raise_when (failed made) (format_failed made.stderr))
        w

  abbrev make_directory : Text → Action W (Unit {0})
  make_directory path w = (ok tt, h.makedirs path w)

  unfoldable pub mount_xfs : Text → Text → Action W (Unit {0})
  mount_xfs device mount_point = do
    make_directory mount_point
    result ← command h (mountpoint mount_point)
    if succeeded result then pure tt else do
      mounted ← command h (mount_command device mount_point)
      raise_when (failed mounted) (mount_failed mounted.stderr)

  unfoldable pub umount_xfs : Text → Action W (Unit {0})
  umount_xfs mount_point = do
    result ← command h (mountpoint mount_point)
    if failed result then pure tt else do
      gone ← command h (codes "umount" ∷ mount_point ∷ [])
      raise_when (failed gone) (umount_failed gone.stderr)

  unfoldable pub grow_xfs : Text → Action W (Unit {0})
  grow_xfs mount_point = do
    result ← command h (mountpoint mount_point)
    raise_when (failed result) (not_mounted mount_point)
    grown ← command h (codes "xfs_growfs" ∷ mount_point ∷ [])
    raise_when (failed grown) (grow_failed grown.stderr)
