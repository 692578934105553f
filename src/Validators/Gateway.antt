-- ===== src/Validators/Gateway.antt =====
-- The gateway that is inferred for an interface.
use native.Mathlib.Nat.{pow-suc}
use arca_storage.Base.{
  ℕ, zero, suc, ◌+◌, ◌-◌, ◌^◌, ◌≤◌, ◌<◌, ◌≡◌, refl, sym, ◌∙◌, ◌≢◌, some, false, arith, nat_eqb, leb,
  if◌then◌else◌,
}
use arca_storage.Ipv4.{Interface, block, network_of, broadcast_of}
use arca_storage.Results.{ok, ok-injective}
use arca_storage.Validators.{first_other, gateway_of}

-- The first host, or the second where the first is the interface itself.
first_other_lem :
    (ip host count : ℕ)
    → 2 ≤ count
    → first_other ip host count ≡ some (if nat_eqb host ip then host + 1 else host)
unfolding first_other
first_other_lem ip host zero h = absurd (omega arith)
first_other_lem ip host (suc zero) h = absurd (omega arith)
first_other_lem ip host (suc (suc n)) h = ground arith

pow_pos : (k : ℕ) → 1 ≤ 2 ^ k
pow_pos zero = omega arith
pow_pos (suc k) = rw pow-suc (omega (arith, pow_pos k))

four-le-pow : (k n : ℕ) → n ≡ suc (suc k) → 4 ≤ 2 ^ n
four-le-pow k n e = rw (e, pow-suc, pow-suc) (omega (arith, pow_pos k))

four-le-block : (p : ℕ) → p < 31 → 4 ≤ block p
four-le-block p h = four-le-pow (30 - p) (32 - p) (omega arith)

-- For a prefix shorter than /31 the gateway is the first host of the network, or the second host
-- where the first is the interface itself.
pub gateway_of_lem :
    (iface : Interface)
    → iface.prefixlen < 31
    → let net = network_of iface.ip iface.prefixlen in
      (gateway_of iface ≡ ok (if nat_eqb (net + 1) iface.ip then net + 1 + 1 else net + 1))
unfolding gateway_of
gateway_of_lem iface h = rw (not_long iface.prefixlen h) (
    rw
      (first_other_lem iface.ip (network_of iface.ip iface.prefixlen + 1)
        (block iface.prefixlen - 2) (omega (arith, four-le-block iface.prefixlen h)))
      refl)
  where
    not_long : (p : ℕ) → p < 31 → leb 31 p ≡ false
    not_long p k = ground arith

gateway_of_short : (iface : Interface) (g : ℕ) → gateway_of iface ≡ ok g → iface.prefixlen < 31
unfolding gateway_of
gateway_of_short iface g h = ground arith

-- An inferred gateway is a host of the interface's network: it lies strictly between the network
-- address and the broadcast address, and it is not the interface's own address.
pub gateway_of-host :
    (iface : Interface) (g : ℕ)
    → gateway_of iface ≡ ok g
    → let net = network_of iface.ip iface.prefixlen in
      (net < g) × (g < broadcast_of net iface.prefixlen) × (g ≢ iface.ip)
unfolding broadcast_of
gateway_of-host iface g h =
    let short = gateway_of_short iface g h in
    let chosen = ok-injective (sym (gateway_of_lem iface short) ∙ h) in
    let room = four-le-block iface.prefixlen short in (ground arith, ground arith, ground arith)
