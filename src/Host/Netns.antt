-- ===== src/Host/Netns.antt =====
-- cli/lib/netns.py: interface names, and the creation and removal of network namespaces. The number
-- that the SHA-256 of a text stands for is a parameter.
pub mod Names
pub mod Listing
pub mod Attach
use arca_storage.Base.{
  ℕ, zero, suc, ◌+◌, ◌-◌, ◌/◌, ◌%◌, Bool, not, ◌||◌, ◌&&◌, List, [], ◌∷◌, ◌++◌, map, Text, codes,
  decimal, filter, take, length, is_digit, is_alnum, is_empty, lower, has_text, leb, ltb,
  if◌then◌else◌,
}
use arca_storage.Results.{
  ifnames_exhausted, create_namespace_failed, delete_namespace_failed, ok, err,
}
use arca_storage.Actions.{Action, pure, ◌>>=◌, ◌>>◌, raise_when}
use arca_storage.Host.{Completed, Host, succeeded, failed, command}

-- `CHARS[i]`
abbrev pub base62 : ℕ → ℕ
base62 i = if ltb i 10 then b'0' + i else if ltb i 36 then b'a' + (i - 10) else b'A' + (i - 36)

-- `_hash2_base62_sha256`
abbrev pub hash2 : (Text → ℕ) → Text → Text
hash2 sha256 seed_text =
    let value = sha256 seed_text in base62 (value % 62) ∷ base62 (value / 62 % 62) ∷ []

-- What the name keeps of the SVM's name.
abbrev pub safe_name : Text → Text
safe_name svm_name =
    let safe = lower (filter is_alnum svm_name) in if is_empty safe then codes "svm" else safe

-- f"v{vlan_id}-"
abbrev pub vlan_prefix : ℕ → Text
vlan_prefix vlan_id = b'v' ∷ (decimal vlan_id ++ codes "-")

-- `prefix`, cut so that the hash has room.
abbrev pub cut_prefix : ℕ → Text
cut_prefix vlan_id =
    let prefix = vlan_prefix vlan_id in if ltb 13 (length prefix) then take 13 prefix else prefix

-- f"{svm_name}:{attempt}"
abbrev pub seed : Text → ℕ → Text
seed svm_name attempt = svm_name ++ b':' ∷ decimal attempt

unfoldable pub make_vlan_ifname : (Text → ℕ) → Text → ℕ → ℕ → Text
make_vlan_ifname sha256 svm_name vlan_id attempt =
    let digest = hash2 sha256 (seed svm_name attempt) in
    let prefix = cut_prefix vlan_id in
    let core_len = 15 - length prefix - length digest in
    take 15 (prefix ++ (take core_len (safe_name svm_name) ++ digest))

abbrev pub link_show : Text → List Text
link_show ifname = codes "ip" ∷ codes "link" ∷ codes "show" ∷ ifname ∷ []

abbrev pub netns_list : List Text
netns_list = codes "ip" ∷ codes "netns" ∷ codes "list" ∷ []

module _ {W : Type 0} (h : Host W) where
  -- The attempts that are left, from `attempt` on.
  unfoldable pub ifname_from : (Text → ℕ) → Text → ℕ → ℕ → ℕ → Action W Text
  ifname_from sha256 svm_name vlan_id attempt zero w = (err ifnames_exhausted, w)
  ifname_from sha256 svm_name vlan_id attempt (suc left) w =
      let candidate = make_vlan_ifname sha256 svm_name vlan_id attempt in
      let (r, w') = h.run (link_show candidate) w in
      let rest = ifname_from sha256 svm_name vlan_id (attempt + 1) left w' in
      if succeeded r then rest else (ok candidate, w')

  unfoldable pub allocate_vlan_ifname : (Text → ℕ) → Text → ℕ → ℕ → Action W Text
  allocate_vlan_ifname sha256 svm_name vlan_id max_attempts w =
      ifname_from sha256 svm_name vlan_id 0 max_attempts w

  -- A namespace whose name stands anywhere in the listing is taken to exist.
  unfoldable pub create_namespace : Text → Action W (Unit {0})
  create_namespace name = do
    result ← command h netns_list
    if has_text name result.stdout then pure tt else do
      added ← command h (codes "ip" ∷ codes "netns" ∷ codes "add" ∷ name ∷ [])
      raise_when (failed added) (create_namespace_failed added.stderr)

  unfoldable pub delete_namespace : Text → Action W (Unit {0})
  delete_namespace name = do
    result ← command h netns_list
    if not (has_text name result.stdout) then pure tt else do
      gone ← command h (codes "ip" ∷ codes "netns" ∷ codes "del" ∷ name ∷ [])
      raise_when (failed gone) (delete_namespace_failed gone.stderr)
