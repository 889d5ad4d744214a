-- ===== src/Links/Address.antt =====
-- `is_public_ip`, `is_public_ipv4`, `is_public_ipv6` and `validate_and_pin_url` of linkpreview.rs,
-- with the tests of the standard library on addresses that they call.
pub mod Blocks
use lqxp.Common.{
  ℕ, zero, ◌-◌, ◌/◌, ◌%◌, Bool, true, false, ◌&&◌, ◌||◌, Option, none, some, List, [], ◌∷◌, ltb,
  leb, nat_beq, if◌then◌else◌, ◌==◌, length, is_empty, all, unwrap_or, Text, text,
  to_ascii_lowercase, text_Eq,
}
use Prim.Native.Nat.{bit_and}

pub record Ipv4Addr : Type 0 where
  pub o0 : ℕ
  pub o1 : ℕ
  pub o2 : ℕ
  pub o3 : ℕ

pub record Ipv6Addr : Type 0 where
  pub seg0 : ℕ
  pub seg1 : ℕ
  pub seg2 : ℕ
  pub seg3 : ℕ
  pub seg4 : ℕ
  pub seg5 : ℕ
  pub seg6 : ℕ
  pub seg7 : ℕ

pub data IpAddr : Type 0 where
  v4 : Ipv4Addr → IpAddr
  v6 : Ipv6Addr → IpAddr

-- The standard library's tests.
abbrev pub starts : Ipv4Addr → ℕ → ℕ → Bool
starts ip a b = nat_beq ip.o0 a && nat_beq ip.o1 b

unfoldable pub is_special : Ipv4Addr → Bool
is_special ip =
    (starts ip 0 0 && (nat_beq ip.o2 0 && nat_beq ip.o3 0))
    || (nat_beq ip.o0 127
        || (starts ip 169 254
            || ((starts ip 255 255 && (nat_beq ip.o2 255 && nat_beq ip.o3 255))
                || ((starts ip 192 0 && nat_beq ip.o2 2)
                    || ((starts ip 198 51 && nat_beq ip.o2 100)
                        || ((starts ip 203 0 && nat_beq ip.o2 113)
                            || (leb 224 ip.o0 && leb ip.o0 239)))))))

unfoldable pub is_public_ipv4 : Ipv4Addr → Bool
unfolding is_special
is_public_ipv4 ip =
    if is_special ip
    then false
    else if nat_beq ip.o0 0
    then false
    else if nat_beq ip.o0 10
    then false
    else if nat_beq ip.o0 172 && (leb 16 ip.o1 && leb ip.o1 31)
    then false
    else if starts ip 192 168
    then false
    else if nat_beq ip.o0 100 && (leb 64 ip.o1 && leb ip.o1 127)
    then false
    else if nat_beq ip.o0 198 && (nat_beq ip.o1 18 || nat_beq ip.o1 19)
    then false
    else if starts ip 169 254
    then false
    else true

-- The first five segments are zero.
abbrev zeros : Ipv6Addr → Bool
zeros ip =
    nat_beq ip.seg0 0
    && (nat_beq ip.seg1 0 && (nat_beq ip.seg2 0 && (nat_beq ip.seg3 0 && nat_beq ip.seg4 0)))

-- Unspecified, loopback and multicast.
is_special_v6 : Ipv6Addr → Bool
is_special_v6 ip =
    (zeros ip
      && (nat_beq ip.seg5 0 && (nat_beq ip.seg6 0 && (nat_beq ip.seg7 0 || nat_beq ip.seg7 1))))
    || nat_beq (bit_and ip.seg0 0xff00) 0xff00

unfoldable pub is_public_ipv6 : Ipv6Addr → Bool
unfolding is_special_v6 is_public_ipv4
is_public_ipv6 ip =
    if is_special_v6 ip
    then false
    else if nat_beq (bit_and ip.seg0 0xfe00) 0xfc00
    then false
    else if nat_beq (bit_and ip.seg0 0xffc0) 0xfe80
    then false
    else if nat_beq (bit_and ip.seg0 0xffc0) 0xfec0
    then false
    else if zeros ip && nat_beq ip.seg5 0xffff
    then is_public_ipv4
        record { o0 = ip.seg6 / 256; o1 = ip.seg6 % 256; o2 = ip.seg7 / 256; o3 = ip.seg7 % 256 }
    else true

unfoldable pub is_public_ip : IpAddr → Bool
unfolding is_public_ipv4 is_public_ipv6
is_public_ip (v4 ip) = is_public_ipv4 ip
is_public_ip (v6 ip) = is_public_ipv6 ip

-- What the `url` crate reads in an address.
pub record Url : Type 0 where
  pub printed : Text
  pub scheme : Text
  pub host_str : Option Text
  pub port_or_known_default : Option ℕ

pub record SocketAddr : Type 0 where
  pub ip : IpAddr
  pub port : ℕ

abbrev pub max_host_len : ℕ
max_host_len = 253

checked_host : Option Text → Option Text
unfolding text
checked_host none = none
checked_host (some host) =
    if is_empty host
      || (to_ascii_lowercase host == text "localhost" || ltb max_host_len (length host))
    then none
    else some host

-- The first address, if there is one and all are public.
unfoldable pub pin : Url → List SocketAddr → Option (Url × SocketAddr)
unfolding is_public_ip
pin url [] = none
pin url (addr ∷ addrs) =
    if all (λ (a : SocketAddr). is_public_ip a.ip) (addr ∷ addrs) then some (url, addr) else none

-- `parse` is `Url::parse`, and `resolve` answers with the addresses of a host and a port.
module _ (parse : Text → Option Url) (resolve : Text → ℕ → Option (List SocketAddr)) where
  resolved : Url → Option Text → Option (Url × SocketAddr)
  unfolding pin text
  resolved url none = none
  resolved url (some host) =
      let default = if url.scheme == text "https" then 443 else 80 in
      elim (resolve host (unwrap_or url.port_or_known_default default)) [
        | none ↦ none
        | some addrs ↦ pin url addrs
      ]

  unfoldable pub validate_and_pin_url : Text → Option (Url × SocketAddr)
  unfolding resolved checked_host text
  validate_and_pin_url raw = elim (parse raw) [
    | none ↦ none
    | some url ↦
        if (url.scheme == text "http") || (url.scheme == text "https")
        then resolved url (checked_host url.host_str)
        else none
  ]
