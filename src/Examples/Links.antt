-- ===== src/Examples/Links.antt =====
-- Addresses that count as public, and that do not.
use lqxp.Common.{◌≡◌, refl, true, false, not, arith, any}
use lqxp.Links.Address.{Ipv4Addr, is_public_ipv4, is_special}
use lqxp.Links.Address.Blocks.{IsIpv4, blocks, is_in, number_of, is_public_ipv4_lem}

abbrev metadata_service : Ipv4Addr
metadata_service = record { o0 = 169; o1 = 254; o2 = 169; o3 = 254 }

metadata_service-IsIpv4 : IsIpv4 metadata_service
metadata_service-IsIpv4 = record {
  b0 = omega arith;
  b1 = omega arith;
  b2 = omega arith;
  b3 = omega arith;
}

is_public_ipv4_lem_example :
    is_public_ipv4 metadata_service ≡ not (any (λ b. is_in (number_of metadata_service) b) blocks)
is_public_ipv4_lem_example = is_public_ipv4_lem metadata_service metadata_service-IsIpv4

refused : is_public_ipv4 metadata_service ≡ false
unfolding is_public_ipv4 is_special
refused = refl

-- A reserved address, of 240.0.0.0/4, counts as public.
reserved_passes : is_public_ipv4 (record { o0 = 240; o1 = 0; o2 = 0; o3 = 1 }) ≡ true
unfolding is_public_ipv4 is_special
reserved_passes = refl
