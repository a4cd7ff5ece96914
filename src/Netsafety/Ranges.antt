-- ===== src/Netsafety/Ranges.antt =====
-- What `AllowedPublicAddress` lets through.
use sing_box_webui.Prelude.{
  ℕ, ◌+◌, ◌*◌, ◌%◌, ◌^◌, ◌<◌, String, ◌≡◌, ◌↔◌, ◌⊎◌, true, false, arith, str_eq,
}
use sing_box_webui.Netsafety.{
  v4, v6, quad, groups, special_v4, special_v6, reserved_v4, reserved_v6, is_nat64, unmap,
  allowed_v4, allowed_unmapped, allowed_public_address,
}

-- Outside the range of the given first and last address.
abbrev pub Outside : ℕ → ℕ → ℕ → Type 0
Outside lo hi n = (n < lo) ⊎ (hi < n)

-- Outside every loopback, private, shared, link-local, multicast, benchmark, documentation and
-- reserved range of IPv4.
pub record IsPublicV4 (n : ℕ) : Type 0 where
  pub loopback : Outside (quad 127 0 0 0) (quad 127 255 255 255) n
  pub private_a : Outside (quad 10 0 0 0) (quad 10 255 255 255) n
  pub private_b : Outside (quad 172 16 0 0) (quad 172 31 255 255) n
  pub private_c : Outside (quad 192 168 0 0) (quad 192 168 255 255) n
  pub link_local : Outside (quad 169 254 0 0) (quad 169 254 255 255) n
  pub multicast : Outside (quad 224 0 0 0) (quad 239 255 255 255) n
  pub this_network : Outside (quad 0 0 0 0) (quad 0 255 255 255) n
  pub shared : Outside (quad 100 64 0 0) (quad 100 127 255 255) n
  pub protocol : Outside (quad 192 0 0 0) (quad 192 0 0 255) n
  pub doc_a : Outside (quad 192 0 2 0) (quad 192 0 2 255) n
  pub benchmark : Outside (quad 198 18 0 0) (quad 198 19 255 255) n
  pub doc_b : Outside (quad 198 51 100 0) (quad 198 51 100 255) n
  pub doc_c : Outside (quad 203 0 113 0) (quad 203 0 113 255) n
  pub reserved : Outside (quad 240 0 0 0) (quad 255 255 255 255) n

module _ (n : ℕ) (h : allowed_v4 n ≡ true) where
  loopback_lem : Outside (quad 127 0 0 0) (quad 127 255 255 255) n
  unfolding allowed_v4 special_v4 reserved_v4
  loopback_lem = ground arith

  private_a_lem : Outside (quad 10 0 0 0) (quad 10 255 255 255) n
  unfolding allowed_v4 special_v4 reserved_v4
  private_a_lem = ground arith

  private_b_lem : Outside (quad 172 16 0 0) (quad 172 31 255 255) n
  unfolding allowed_v4 special_v4 reserved_v4
  private_b_lem = ground arith

  private_c_lem : Outside (quad 192 168 0 0) (quad 192 168 255 255) n
  unfolding allowed_v4 special_v4 reserved_v4
  private_c_lem = ground arith

  link_local_lem : Outside (quad 169 254 0 0) (quad 169 254 255 255) n
  unfolding allowed_v4 special_v4 reserved_v4
  link_local_lem = ground arith

  multicast_lem : Outside (quad 224 0 0 0) (quad 239 255 255 255) n
  unfolding allowed_v4 special_v4 reserved_v4
  multicast_lem = ground arith

  this_network_lem : Outside (quad 0 0 0 0) (quad 0 255 255 255) n
  unfolding allowed_v4 special_v4 reserved_v4
  this_network_lem = ground arith

  shared_lem : Outside (quad 100 64 0 0) (quad 100 127 255 255) n
  unfolding allowed_v4 special_v4 reserved_v4
  shared_lem = ground arith

  protocol_lem : Outside (quad 192 0 0 0) (quad 192 0 0 255) n
  unfolding allowed_v4 special_v4 reserved_v4
  protocol_lem = ground arith

  doc_a_lem : Outside (quad 192 0 2 0) (quad 192 0 2 255) n
  unfolding allowed_v4 special_v4 reserved_v4
  doc_a_lem = ground arith

  benchmark_lem : Outside (quad 198 18 0 0) (quad 198 19 255 255) n
  unfolding allowed_v4 special_v4 reserved_v4
  benchmark_lem = ground arith

  doc_b_lem : Outside (quad 198 51 100 0) (quad 198 51 100 255) n
  unfolding allowed_v4 special_v4 reserved_v4
  doc_b_lem = ground arith

  doc_c_lem : Outside (quad 203 0 113 0) (quad 203 0 113 255) n
  unfolding allowed_v4 special_v4 reserved_v4
  doc_c_lem = ground arith

  reserved_lem : Outside (quad 240 0 0 0) (quad 255 255 255 255) n
  unfolding allowed_v4 special_v4 reserved_v4
  reserved_lem = ground arith

  allowed_v4-IsPublicV4 : IsPublicV4 n
  allowed_v4-IsPublicV4 = record {
    loopback = loopback_lem;
    private_a = private_a_lem;
    private_b = private_b_lem;
    private_c = private_c_lem;
    link_local = link_local_lem;
    multicast = multicast_lem;
    this_network = this_network_lem;
    shared = shared_lem;
    protocol = protocol_lem;
    doc_a = doc_a_lem;
    benchmark = benchmark_lem;
    doc_b = doc_b_lem;
    doc_c = doc_c_lem;
    reserved = reserved_lem;
  }

IsPublicV4-special : (n : ℕ) → n < 2 ^ 32 → IsPublicV4 n → special_v4 n ≡ false
unfolding special_v4
IsPublicV4-special n l p = ground arith

IsPublicV4-reserved : (n : ℕ) → n < 2 ^ 32 → IsPublicV4 n → reserved_v4 n ≡ false
unfolding reserved_v4
IsPublicV4-reserved n l p = ground arith

-- An IPv4 address is allowed exactly when it lies outside every range of `IsPublicV4`, which gives the
-- special-purpose and reserved ranges by their bounds.
pub allowed_v4_exact : (n : ℕ) → n < 2 ^ 32 → (allowed_public_address (v4 n) ≡ true) ↔ IsPublicV4 n
unfolding allowed_unmapped unmap allowed_public_address
allowed_v4_exact n l = (
  λ h. allowed_v4-IsPublicV4 n h,
  λ p. unfold allowed_v4 in rw (IsPublicV4-special n l p, IsPublicV4-reserved n l p),
)

-- The IPv6 addresses that embed an IPv4 address.
abbrev pub mapped : ℕ → ℕ
mapped n = 0xffff * 2 ^ 32 + n

abbrev pub nat64 : ℕ → ℕ
nat64 n = groups 0x64 0xff9b 0 + n

unmap-mapped : (n : ℕ) (zone : String) → n < 2 ^ 32 → unmap (v6 (mapped n) zone) ≡ v4 n
unfolding unmap
unmap-mapped n zone l = ground arith

unmap-nat64 : (n : ℕ) (zone : String) → n < 2 ^ 32 → unmap (v6 (nat64 n) zone) ≡ v6 (nat64 n) zone
unfolding unmap
unmap-nat64 n zone l = ground arith

nat64_not_special : (n : ℕ) (zone : String) → n < 2 ^ 32 → special_v6 (nat64 n) zone ≡ false
unfolding special_v6
nat64_not_special n zone l = ground arith

nat64_not_reserved : (n : ℕ) (zone : String) → n < 2 ^ 32 → reserved_v6 (nat64 n) zone ≡ false
unfolding reserved_v6
nat64_not_reserved n zone l = ground arith

nat64-is_nat64 : (n : ℕ) → n < 2 ^ 32 → is_nat64 (nat64 n) "" ≡ true
unfolding is_nat64
nat64-is_nat64 n l = ground arith

nat64_low : (n : ℕ) → n < 2 ^ 32 → nat64 n % 2 ^ 32 ≡ n
nat64_low n l = omega arith

-- An IPv4 address is judged alike when it is given as such, mapped into IPv6, or embedded under the
-- well-known NAT64 prefix in an address without a zone.
pub allowed_embedded :
    (n : ℕ) (zone : String)
    → n < 2 ^ 32
    → (allowed_public_address (v6 (mapped n) zone) ≡ allowed_public_address (v4 n))
      × (allowed_public_address (v6 (nat64 n) "") ≡ allowed_public_address (v4 n))
unfolding allowed_public_address
allowed_embedded n zone l = (
  rw (unmap-mapped n zone l),
  rw (unmap-nat64 n "" l) (
      unfold allowed_unmapped unmap in
      rw (nat64_not_special n "" l, nat64_not_reserved n "" l, nat64-is_nat64 n l, nat64_low n l)),
)

-- A zone lifts the NAT64 check: under the well-known NAT64 prefix every IPv4 address is allowed in an
-- address that carries a zone, the loopback and private ones included.
pub zoned_nat64_allowed :
    (n : ℕ) (zone : String)
    → n < 2 ^ 32
    → str_eq zone "" ≡ false
    → allowed_public_address (v6 (nat64 n) zone) ≡ true
unfolding allowed_public_address
zoned_nat64_allowed n zone l z = rw (unmap-nat64 n zone l) (
    unfold allowed_unmapped is_nat64 in
    rw (nat64_not_special n zone l, nat64_not_reserved n zone l, z))
