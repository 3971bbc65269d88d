-- ===== src/Fetch/Guard.antt =====
-- `isBlockedIP` and `guardDial`: which addresses the dialer may reach.
use bfeed.Base.{
  Bool-cases, Option-cases, if◌then◌else◌, Bool, true, false, not, ◌||◌, ◌≡◌, ◌⊎◌, inl, inr, Option,
  none, some, List, [], ◌∷◌, map, arith,
}
use bfeed.Base.Text.{Text, codes}

-- net/netip, with `Addr` the addresses and `Prefix` the prefixes, and `net.SplitHostPort`.
pub record Netip (Addr Prefix : Type 0) : Type 0 where
  pub split_host : Text → Option Text
  pub parse_addr : Text → Option Addr
  pub must_parse_prefix : Text → Prefix
  pub contains : Prefix → Addr → Bool
  pub unmap : Addr → Addr
  pub is_valid : Addr → Bool
  pub is_loopback : Addr → Bool
  pub is_unspecified : Addr → Bool
  pub is_private : Addr → Bool
  pub is_link_local_unicast : Addr → Bool
  pub is_link_local_multicast : Addr → Bool
  pub is_multicast : Addr → Bool
  pub is_interface_local_multicast : Addr → Bool

-- The verdicts of `guardDial`: nil, or one of its three errors.
pub data Verdict : Type 0 where
  allowed bad_address unparseable_ip blocked_address : Verdict

module _ {Addr Prefix : Type 0} (ip : Netip Addr Prefix) where
  unfoldable pub in_any : List Prefix → Addr → Bool
  in_any [] a = false
  in_any (p ∷ ps) a = ip.contains p a || in_any ps a

  -- `blockedPrefixes`
  unfoldable pub blocked_prefixes : List Prefix
  blocked_prefixes = map ip.must_parse_prefix (
      codes "100.64.0.0/10"
      ∷ codes "0.0.0.0/8"
      ∷ codes "240.0.0.0/4"
      ∷ codes "198.18.0.0/15"
      ∷ codes "192.0.0.0/24"
      ∷ codes "192.88.99.0/24"
      ∷ codes "2002::/16"
      ∷ codes "64:ff9b::/96"
      ∷ codes "fec0::/10"
      ∷ codes "2001::/32"
      ∷ [])

  -- The predicates of netip that `isBlockedIP` asks.
  unfoldable pub is_special : Addr → Bool
  is_special a =
      not (ip.is_valid a)
      || ip.is_loopback a
      || ip.is_unspecified a
      || ip.is_private a
      || ip.is_link_local_unicast a
      || ip.is_link_local_multicast a
      || ip.is_multicast a
      || ip.is_interface_local_multicast a

  -- `isBlockedIP`
  unfoldable pub is_blocked_ip : Addr → Bool
  is_blocked_ip a = is_special (ip.unmap a) || in_any blocked_prefixes (ip.unmap a)

  unfoldable pub dial_addr : List Prefix → Addr → Verdict
  dial_addr ps a =
      if in_any ps (ip.unmap a)
      then allowed
      else if is_blocked_ip (ip.unmap a)
      then blocked_address
      else allowed

  -- `guardDial`
  unfoldable pub guard_dial : List Prefix → Text → Verdict
  unfolding dial_addr
  guard_dial ps address = elim (ip.split_host address) [
    | none ↦ bad_address
    | some host ↦ elim (ip.parse_addr host) [ none ↦ unparseable_ip | some a ↦ dial_addr ps a ]
  ]

  -- The address that is dialled, if there is one.
  abbrev pub target : Text → Option Addr
  target address = elim (ip.split_host address) [ none ↦ none | some host ↦ ip.parse_addr host ]

  abbrev Outside : Text → Addr → Type 0
  Outside prefix a = ip.contains (ip.must_parse_prefix prefix) a ≡ false

  -- An address of the public internet.
  pub record IsPublic (a : Addr) : Type 0 where
    valid : ip.is_valid a ≡ true
    loopback : ip.is_loopback a ≡ false
    unspecified : ip.is_unspecified a ≡ false
    private_use : ip.is_private a ≡ false
    link_local : ip.is_link_local_unicast a ≡ false
    link_local_multicast : ip.is_link_local_multicast a ≡ false
    multicast : ip.is_multicast a ≡ false
    interface_multicast : ip.is_interface_local_multicast a ≡ false
    carrier_nat : Outside (codes "100.64.0.0/10") a
    this_network : Outside (codes "0.0.0.0/8") a
    reserved : Outside (codes "240.0.0.0/4") a
    benchmarking : Outside (codes "198.18.0.0/15") a
    protocol_assignments : Outside (codes "192.0.0.0/24") a
    relay_anycast : Outside (codes "192.88.99.0/24") a
    six_to_four : Outside (codes "2002::/16") a
    nat64 : Outside (codes "64:ff9b::/96") a
    site_local : Outside (codes "fec0::/10") a
    teredo : Outside (codes "2001::/32") a

  -- One of the prefixes has the address.
  abbrev IsCovered : List Prefix → Addr → Type 0
  IsCovered [] a = ⊥
  IsCovered (p ∷ ps) a = (ip.contains p a ≡ true) ⊎ IsCovered ps a

  -- What may be reached: an address in a prefix that the configuration allows, or a public one.
  abbrev pub IsReachable : List Prefix → Addr → Type 0
  IsReachable ps a = IsCovered ps a ⊎ IsPublic a

  in_any-IsCovered : (ps : List Prefix) (a : Addr) → in_any ps a ≡ true → IsCovered ps a
  unfolding in_any
  in_any-IsCovered [] a h = absurd (ground (arith, h))
  in_any-IsCovered (p ∷ ps) a h = elim (Bool-cases (ip.contains p a)) [
    | inl e ↦ inl e
    | inr e ↦ inr (in_any-IsCovered ps a (ground (arith, e, h)))
  ]

  is_blocked_ip-IsPublic : (a : Addr) → ip.unmap a ≡ a → is_blocked_ip a ≡ false → IsPublic a
  unfolding is_blocked_ip is_special blocked_prefixes in_any
  is_blocked_ip-IsPublic a u h = record {
    valid = ground (arith, u, h);
    loopback = ground (arith, u, h);
    unspecified = ground (arith, u, h);
    private_use = ground (arith, u, h);
    link_local = ground (arith, u, h);
    link_local_multicast = ground (arith, u, h);
    multicast = ground (arith, u, h);
    interface_multicast = ground (arith, u, h);
    carrier_nat = ground (arith, u, h);
    this_network = ground (arith, u, h);
    reserved = ground (arith, u, h);
    benchmarking = ground (arith, u, h);
    protocol_assignments = ground (arith, u, h);
    relay_anycast = ground (arith, u, h);
    six_to_four = ground (arith, u, h);
    nat64 = ground (arith, u, h);
    site_local = ground (arith, u, h);
    teredo = ground (arith, u, h);
  }

  dial_addr-IsReachable :
      (ps : List Prefix) (a : Addr)
      → ip.unmap (ip.unmap a) ≡ ip.unmap a
      → dial_addr ps a ≡ allowed
      → IsReachable ps (ip.unmap a)
  unfolding dial_addr
  dial_addr-IsReachable ps a u h = elim (Bool-cases (in_any ps (ip.unmap a))) [
    | inl e ↦ inl (in_any-IsCovered ps (ip.unmap a) e)
    | inr e ↦ inr (is_blocked_ip-IsPublic (ip.unmap a) u (ground (arith, e, h)))
  ]

  -- If `Unmap` is idempotent, as documented, an address passes only if it parses and its unmapped
  -- form, which a 4-in-6 address shares with its IPv4 one, is in a prefix that the configuration allows
  -- or is public: valid, neither loopback, unspecified, private, link-local nor multicast, and in none of
  -- the ten prefixes of carrier NAT, this network, reserved space, benchmarking, protocol assignments,
  -- relays, 6to4, NAT64, site-local and Teredo addresses.
  pub guard_dial-IsReachable :
      (ps : List Prefix) (address : Text)
      → ((a : Addr) → ip.unmap (ip.unmap a) ≡ ip.unmap a)
      → guard_dial ps address ≡ allowed
      → (a : Addr) × (target address ≡ some a) × IsReachable ps (ip.unmap a)
  unfolding guard_dial
  guard_dial-IsReachable ps address u h = elim (Option-cases (ip.split_host address)) [
    | inl e ↦ absurd (ground (arith, e, h))
    | inr (host, e) ↦ elim (Option-cases (ip.parse_addr host)) [
      | inl f ↦ absurd (ground (arith, e, f, h))
      | inr (a, f) ↦
          let reached : target address ≡ some a = ground (arith, e, f) in
          (a, reached, dial_addr-IsReachable ps a (u a) (ground (arith, e, f, h)))
    ]
  ]
