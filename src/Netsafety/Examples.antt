-- ===== src/Netsafety/Examples.antt =====
-- The theorems on addresses, applied to a public address, a mapped one and the loopback address.
use sing_box_webui.Prelude.{◌≡◌, refl, true, arith, ◌↔◌}
use sing_box_webui.Netsafety.{v4, v6, allowed_public_address}
use sing_box_webui.Netsafety.Ranges.{
  IsPublicV4, allowed_v4_exact, mapped, nat64, allowed_embedded, zoned_nat64_allowed,
}

-- Tests

allowed_v4_exact_example : (allowed_public_address (v4 134744072) ≡ true) ↔ IsPublicV4 134744072
allowed_v4_exact_example = allowed_v4_exact 134744072 (omega arith)

allowed_embedded_example :
    (allowed_public_address (v6 (mapped 2130706433) "") ≡ allowed_public_address (v4 2130706433))
    × (allowed_public_address (v6 (nat64 2130706433) "") ≡ allowed_public_address (v4 2130706433))
allowed_embedded_example = allowed_embedded 2130706433 "" (omega arith)

zoned_nat64_allowed_example : allowed_public_address (v6 (nat64 2130706433) "eth0") ≡ true
zoned_nat64_allowed_example = zoned_nat64_allowed 2130706433 "eth0" (omega arith) refl
