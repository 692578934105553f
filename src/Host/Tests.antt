-- ===== src/Host/Tests.antt =====
-- Interfaces and namespaces of a small machine.
use arca_storage.Base.{
  ℕ, suc, ◌-◌, ◌≤◌, ◌<◌, ◌≡◌, refl, true, false, [], ◌++◌, Text, codes, length, take,
}
use arca_storage.Results.{ok}
use arca_storage.Host.{Host, succeeded}
use arca_storage.Host.Netns.{
  hash2, safe_name, cut_prefix, seed, make_vlan_ifname, link_show, ifname_from,
  allocate_vlan_ifname,
}
use arca_storage.Host.Netns.Names.{make_vlan_ifname_lem, allocate_vlan_ifname-free}

-- A machine with one namespace and no interface of any name, which counts its commands.
abbrev one_namespace : Host ℕ
one_namespace = record {
  run = λ cmd w. (record { returncode = 1; stdout = codes "web10 (id: 0)"; stderr = [] }, suc w);
  exists = λ path w. true;
  makedirs = λ path w. w;
}

abbrev small_hash : Text → ℕ
small_hash t = length t

make_vlan_ifname_lem_example :
    (length (make_vlan_ifname small_hash (codes "Web-Frontend") 4094 0) ≤ 15)
    × (make_vlan_ifname small_hash (codes "Web-Frontend") 4094 0
        ≡ cut_prefix 4094
          ++ (take (13 - length (cut_prefix 4094)) (safe_name (codes "Web-Frontend"))
              ++ hash2 small_hash (seed (codes "Web-Frontend") 0)))
make_vlan_ifname_lem_example = make_vlan_ifname_lem small_hash (codes "Web-Frontend") 4094 0

first_free :
    allocate_vlan_ifname one_namespace small_hash (codes "web") 7 256 0
    ≡ (ok (make_vlan_ifname small_hash (codes "web") 7 0), 1)
unfolding allocate_vlan_ifname ifname_from
first_free = refl

allocate_vlan_ifname-free_example :
    (n : ℕ) × (n < 256)
    × (make_vlan_ifname small_hash (codes "web") 7 0
        ≡ make_vlan_ifname small_hash (codes "web") 7 n)
    × ((before : ℕ) × (succeeded
            (one_namespace.run (link_show (make_vlan_ifname small_hash (codes "web") 7 0)) before).0
          ≡ false)
        × (◌≡◌ {A = ℕ} 1
            (one_namespace.run
              (link_show (make_vlan_ifname small_hash (codes "web") 7 0))
              before).1))
allocate_vlan_ifname-free_example =
    allocate_vlan_ifname-free one_namespace small_hash (codes "web") 7 256 0 1
      (make_vlan_ifname small_hash (codes "web") 7 0) first_free
