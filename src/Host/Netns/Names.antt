-- ===== src/Host/Netns/Names.antt =====
-- The names of interfaces fit the kernel's limit and keep their hash, and an allocated name was free.
use arca_storage.Base.{
  ℕ, zero, suc, ◌+◌, ◌-◌, ◌≤◌, ◌<◌, ◌≡◌, refl, ap, sym, false, List, [], ◌∷◌, ◌++◌, Text, length,
  length-append, take, ltb, inl, inr, Bool-cases, arith,
}
use arca_storage.Results.{ok}
use arca_storage.Host.{Host, succeeded}
use arca_storage.Host.Netns.{
  hash2, safe_name, vlan_prefix, cut_prefix, seed, make_vlan_ifname, link_show, ifname_from,
  allocate_vlan_ifname,
}

length-take {ℓ} : {A : Type ℓ} (n : ℕ) (xs : List A) → length (take n xs) ≤ n
length-take zero xs = omega arith
length-take (suc n) [] = omega arith
length-take (suc n) (x ∷ xs) = omega (arith, length-take n xs)

take_all {ℓ} : {A : Type ℓ} (n : ℕ) (xs : List A) → length xs ≤ n → take n xs ≡ xs
take_all zero [] h = refl
take_all zero (x ∷ xs) h = absurd (omega arith)
take_all (suc n) [] h = refl
take_all (suc n) (x ∷ xs) h = ap (λ ys. x ∷ ys) (take_all n xs (omega arith))

prefix_fits : (vlan_id : ℕ) → length (cut_prefix vlan_id) ≤ 13
prefix_fits vlan_id = elim (Bool-cases (ltb 13 (length (vlan_prefix vlan_id)))) [
  | inl e ↦ rw e (length-take 13 (vlan_prefix vlan_id))
  | inr e ↦ rw e (ground arith)
]

-- An interface name has at most 15 characters, the kernel's limit, and the hash is never cut off: the
-- name is the prefix, as much of the SVM's name as there is room for, and the two characters of the
-- hash.
pub make_vlan_ifname_lem :
    (sha256 : Text → ℕ) (svm_name : Text) (vlan_id attempt : ℕ)
    → (length (make_vlan_ifname sha256 svm_name vlan_id attempt) ≤ 15)
      × (make_vlan_ifname sha256 svm_name vlan_id attempt
          ≡ cut_prefix vlan_id
            ++ (take (13 - length (cut_prefix vlan_id)) (safe_name svm_name)
                ++ hash2 sha256 (seed svm_name attempt)))
unfolding make_vlan_ifname
make_vlan_ifname_lem sha256 svm_name vlan_id attempt =
    let prefix = cut_prefix vlan_id in
    let core = take (13 - length prefix) (safe_name svm_name) in
    let digest = hash2 sha256 (seed svm_name attempt) in
    let room : 15 - length prefix - 2 ≡ 13 - length prefix = omega arith in
    let fits : length (prefix ++ (core ++ digest)) ≤ 15 = omega (
      arith,
      length-append prefix (core ++ digest),
      length-append core digest,
      length-take (13 - length prefix) (safe_name svm_name),
      prefix_fits vlan_id,
    ) in
    (length-take 15 _, rw room (take_all 15 (prefix ++ (core ++ digest)) fits))

module _ {W : Type 0} (h : Host W) (sha256 : Text → ℕ) (svm_name : Text) (vlan_id : ℕ) where
  from-ok :
      (attempt left : ℕ) (w w' : W) (name : Text)
      → ifname_from h sha256 svm_name vlan_id attempt left w ≡ (ok name, w')
      → (n : ℕ) × (n < attempt + left)
        × (name ≡ make_vlan_ifname sha256 svm_name vlan_id n)
        × ((before : W) × (succeeded (h.run (link_show name) before).0 ≡ false)
            × (w' ≡ (h.run (link_show name) before).1))
  unfolding ifname_from
  from-ok attempt zero w w' name e = cc
  from-ok attempt (suc left) w w' name e =
      let candidate = make_vlan_ifname sha256 svm_name vlan_id attempt in
      elim (Bool-cases (succeeded (h.run (link_show candidate) w).0)) [
        | inl taken ↦
            let (n, lt, same, free) =
              from-ok (attempt + 1) left (h.run (link_show candidate) w).1 w' name
                (rw taken at e) in
            (n, omega arith, same, free)
        | inr free ↦
            let same : candidate ≡ name = ground arith in
            (attempt, omega arith, sym same, (w, rw (← same) free, rw (← same) (ground arith)))
      ]

  -- An allocated interface name is the one of an attempt below the limit, and `ip link show`, the last
  -- command that was run, did not find it.
  pub allocate_vlan_ifname-free :
      (max_attempts : ℕ) (w w' : W) (name : Text)
      → allocate_vlan_ifname h sha256 svm_name vlan_id max_attempts w ≡ (ok name, w')
      → (n : ℕ) × (n < max_attempts)
        × (name ≡ make_vlan_ifname sha256 svm_name vlan_id n)
        × ((before : W) × (succeeded (h.run (link_show name) before).0 ≡ false)
            × (w' ≡ (h.run (link_show name) before).1))
  unfolding allocate_vlan_ifname
  allocate_vlan_ifname-free max_attempts w w' name e =
      let (n, lt, same, asked) = from-ok 0 max_attempts w w' name e in (n, omega arith, same, asked)
