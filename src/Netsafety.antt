-- ===== src/Netsafety.antt =====
-- internal/netsafety/address.go: which addresses count as public. An address is that of net/netip: the
-- number of its 32 or 128 bits, and the zone of an IPv6 address.
pub mod Examples
pub mod Ranges
use sing_box_webui.Prelude.{
  ℕ, ◌+◌, ◌*◌, ◌/◌, ◌%◌, ◌^◌, ◌-◌, String, Bool, true, false, not, ◌&&◌, ◌||◌, List, [], ◌∷◌, leb,
  ltb, ◌==◌, if◌then◌else◌, str_eq,
}

pub data Addr : Type 0 where
  invalid : Addr
  v4 : ℕ → Addr
  v6 : ℕ → String → Addr

-- The prefix of `bits` bits at `base` holds the number, of `width` bits.
abbrev pub in_prefix : ℕ → ℕ → ℕ → ℕ → Bool
in_prefix width base bits n = n / 2 ^ (width - bits) == base / 2 ^ (width - bits)

-- Four bytes.
abbrev pub quad : ℕ → ℕ → ℕ → ℕ → ℕ
quad a b c d = ((a * 256 + b) * 256 + c) * 256 + d

-- The leading 16-bit groups of an IPv6 address, the others zero.
abbrev pub groups : ℕ → ℕ → ℕ → ℕ
groups a b c = ((a * 2 ^ 16 + b) * 2 ^ 16 + c) * 2 ^ 80

-- `IsLoopback`, `IsPrivate`, `IsLinkLocalUnicast`, `IsLinkLocalMulticast`, `IsMulticast` and
-- `IsUnspecified` of an IPv4 address.
pub special_v4 : ℕ → Bool
special_v4 n =
    in_prefix 32 (quad 127 0 0 0) 8 n
    || in_prefix 32 (quad 10 0 0 0) 8 n
    || in_prefix 32 (quad 172 16 0 0) 12 n
    || in_prefix 32 (quad 192 168 0 0) 16 n
    || in_prefix 32 (quad 169 254 0 0) 16 n
    || in_prefix 32 (quad 224 0 0 0) 24 n
    || in_prefix 32 (quad 224 0 0 0) 4 n
    || n == 0

-- The same of an IPv6 address: ::1, fc00::/7, fe80::/10, ffx2::/16, ff00::/8 and ::. A zone counts
-- only where the whole address is compared.
pub special_v6 : ℕ → String → Bool
special_v6 n zone =
    n == 1
    || in_prefix 128 (groups 0xfc00 0 0) 7 n
    || in_prefix 128 (groups 0xfe80 0 0) 10 n
    || (in_prefix 128 (groups 0xff00 0 0) 8 n && n / 2 ^ 112 % 16 == 2)
    || in_prefix 128 (groups 0xff00 0 0) 8 n
    || (n == 0 && str_eq zone "")

-- The IPv4 entries of `nonPublicPrefixes`.
pub reserved_v4 : ℕ → Bool
reserved_v4 n =
    in_prefix 32 (quad 0 0 0 0) 8 n
    || in_prefix 32 (quad 100 64 0 0) 10 n
    || in_prefix 32 (quad 192 0 0 0) 24 n
    || in_prefix 32 (quad 192 0 2 0) 24 n
    || in_prefix 32 (quad 198 18 0 0) 15 n
    || in_prefix 32 (quad 198 51 100 0) 24 n
    || in_prefix 32 (quad 203 0 113 0) 24 n
    || in_prefix 32 (quad 240 0 0 0) 4 n

-- The IPv6 entries. `Prefix.Contains` is false of every address with a zone.
pub reserved_v6 : ℕ → String → Bool
reserved_v6 n zone =
    str_eq zone ""
    && (in_prefix 128 (groups 0x64 0xff9b 1) 48 n
        || in_prefix 128 (groups 0x2001 0xdb8 0) 32 n
        || in_prefix 128 (groups 0xfec0 0 0) 10 n)

-- 64:ff9b::/96
pub is_nat64 : ℕ → String → Bool
is_nat64 n zone = str_eq zone "" && in_prefix 128 (groups 0x64 0xff9b 0) 96 n

-- `Unmap`: ::ffff:0:0/96 stands for its last four bytes.
pub unmap : Addr → Addr
unmap (v6 n zone) = if n / 2 ^ 32 == 0xffff then v4 (n % 2 ^ 32) else v6 n zone
unmap a = a

allowed_v4 : ℕ → Bool
allowed_v4 n = not (special_v4 n) && not (reserved_v4 n)

-- The body of `AllowedPublicAddress` after `Unmap`; the call on the embedded address meets an IPv4
-- address, which is in no IPv6 prefix.
allowed_unmapped : Addr → Bool
unfolding allowed_v4
allowed_unmapped invalid = false
allowed_unmapped (v4 n) = allowed_v4 n
allowed_unmapped (v6 n zone) =
    if special_v6 n zone || reserved_v6 n zone
    then false
    else if is_nat64 n zone
    then allowed_v4 (n % 2 ^ 32)
    else true

unfoldable pub allowed_public_address : Addr → Bool
unfolding allowed_unmapped unmap special_v4 special_v6 reserved_v4 reserved_v6 is_nat64
allowed_public_address a = allowed_unmapped (unmap a)
