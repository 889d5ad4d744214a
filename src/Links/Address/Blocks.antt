-- ===== src/Links/Address/Blocks.antt =====
-- The addresses that `is_public_ipv4` refuses, as blocks, and what a pinned address is.
use lqxp.Common.{
  ℕ, ◌+◌, ◌*◌, ◌<◌, ◌≡◌, refl, inl, inr, Bool, true, false, ◌&&◌, ◌||◌, not, List, [], ◌∷◌, arith,
  ltb, leb, nat_beq, if◌then◌else◌, Bool-cases, any,
}
use lqxp.Links.Address.{Ipv4Addr, starts, is_special, is_public_ipv4}

-- A block of addresses: the number of its first one, over the size of the block.
pub record Block : Type 0 where
  pub first : ℕ
  pub size : ℕ

abbrev pub block : ℕ → ℕ → ℕ → ℕ → ℕ → Block
block a b c d size = record { first = ((a * 256 + b) * 256 + c) * 256 + d; size = size }

abbrev pub number_of : Ipv4Addr → ℕ
number_of ip = ((ip.o0 * 256 + ip.o1) * 256 + ip.o2) * 256 + ip.o3

abbrev pub is_in : ℕ → Block → Bool
is_in n b = leb b.first n && ltb n (b.first + b.size)

-- 0.0.0.0/8, 10.0.0.0/8, 100.64.0.0/10, 127.0.0.0/8, 169.254.0.0/16, 172.16.0.0/12, 192.0.2.0/24,
-- 192.168.0.0/16, 198.18.0.0/15, 198.51.100.0/24, 203.0.113.0/24, 224.0.0.0/4, 255.255.255.255/32
unfoldable pub blocks : List Block
blocks =
    block 0 0 0 0 16777216
    ∷ block 10 0 0 0 16777216
    ∷ block 100 64 0 0 4194304
    ∷ block 127 0 0 0 16777216
    ∷ block 169 254 0 0 65536
    ∷ block 172 16 0 0 1048576
    ∷ block 192 0 2 0 256
    ∷ block 192 168 0 0 65536
    ∷ block 198 18 0 0 131072
    ∷ block 198 51 100 0 256
    ∷ block 203 0 113 0 256
    ∷ block 224 0 0 0 268435456
    ∷ block 255 255 255 255 1
    ∷ []

-- The octets are bytes.
pub record IsIpv4 (ip : Ipv4Addr) : Type 0 where
  pub b0 : ip.o0 < 256
  pub b1 : ip.o1 < 256
  pub b2 : ip.o2 < 256
  pub b3 : ip.o3 < 256

-- The tests in the order of the code, and in the order of the blocks, as truth values.
in_order :
    (u lo ll br d1 d2 d3 mu ze te p1 p2 cg be : Bool)
    → (u ≡ true → ze ≡ true)
    → (if u || (lo || (ll || (br || (d1 || (d2 || (d3 || mu))))))
        then false
        else if ze
        then false
        else if te
        then false
        else if p1
        then false
        else if p2
        then false
        else if cg
        then false
        else if be
        then false
        else if ll
        then false
        else true)
      ≡ not (
          ze
          || (te
              || (cg
                  || (lo
                      || (ll
                          || (p1
                              || (d1 || (p2 || (be || (d2 || (d3 || (mu || (br || false)))))))))))))
in_order u lo ll br d1 d2 d3 mu true te p1 p2 cg be h =
    elim (Bool-cases (u || (lo || (ll || (br || (d1 || (d2 || (d3 || mu)))))))) [
      | inl c ↦ rw c refl
      | inr c ↦ rw c refl
    ]
in_order true lo ll br d1 d2 d3 mu false te p1 p2 cg be h = ground arith
in_order false true ll br d1 d2 d3 mu false te p1 p2 cg be h = ground arith
in_order false false true br d1 d2 d3 mu false te p1 p2 cg be h = ground arith
in_order false false false br d1 d2 d3 mu false true p1 p2 cg be h = ground arith
in_order false false false br d1 d2 d3 mu false false p1 p2 true be h = ground arith
in_order false false false br d1 d2 d3 mu false false p1 p2 false be h = ground arith

module _ (ip : Ipv4Addr) (v : IsIpv4 ip) where
  block_0 : is_in (number_of ip) (block 0 0 0 0 16777216) ≡ nat_beq ip.o0 0
  block_0 = ground arith

  block_10 : is_in (number_of ip) (block 10 0 0 0 16777216) ≡ nat_beq ip.o0 10
  block_10 = ground arith

  block_100 :
      is_in (number_of ip) (block 100 64 0 0 4194304)
      ≡ (nat_beq ip.o0 100 && (leb 64 ip.o1 && leb ip.o1 127))
  block_100 = ground arith

  block_127 : is_in (number_of ip) (block 127 0 0 0 16777216) ≡ nat_beq ip.o0 127
  block_127 = ground arith

  block_169 : is_in (number_of ip) (block 169 254 0 0 65536) ≡ starts ip 169 254
  block_169 = ground arith

  block_172 :
      is_in (number_of ip) (block 172 16 0 0 1048576)
      ≡ (nat_beq ip.o0 172 && (leb 16 ip.o1 && leb ip.o1 31))
  block_172 = ground arith

  block_192_0 : is_in (number_of ip) (block 192 0 2 0 256) ≡ (starts ip 192 0 && nat_beq ip.o2 2)
  block_192_0 = ground arith

  block_192_168 : is_in (number_of ip) (block 192 168 0 0 65536) ≡ starts ip 192 168
  block_192_168 = ground arith

  block_198_18 :
      is_in (number_of ip) (block 198 18 0 0 131072)
      ≡ (nat_beq ip.o0 198 && (nat_beq ip.o1 18 || nat_beq ip.o1 19))
  block_198_18 = ground arith

  block_198_51 :
      is_in (number_of ip) (block 198 51 100 0 256) ≡ (starts ip 198 51 && nat_beq ip.o2 100)
  block_198_51 = ground arith

  block_203 : is_in (number_of ip) (block 203 0 113 0 256) ≡ (starts ip 203 0 && nat_beq ip.o2 113)
  block_203 = ground arith

  block_224 : is_in (number_of ip) (block 224 0 0 0 268435456) ≡ (leb 224 ip.o0 && leb ip.o0 239)
  block_224 = ground arith

  block_255 :
      is_in (number_of ip) (block 255 255 255 255 1)
      ≡ (starts ip 255 255 && (nat_beq ip.o2 255 && nat_beq ip.o3 255))
  block_255 = ground arith

  -- Exactly the addresses outside these blocks count as public.
  pub is_public_ipv4_lem : is_public_ipv4 ip ≡ not (any (λ b. is_in (number_of ip) b) blocks)
  unfolding is_public_ipv4 is_special any blocks
  is_public_ipv4_lem =
      rw
        (
          block_0, block_10, block_100, block_127, block_169, block_172, block_192_0, block_192_168,
          block_198_18, block_198_51, block_203, block_224, block_255,
        )
        (in_order (starts ip 0 0 && (nat_beq ip.o2 0 && nat_beq ip.o3 0)) (nat_beq ip.o0 127)
          (starts ip 169 254) (starts ip 255 255 && (nat_beq ip.o2 255 && nat_beq ip.o3 255))
          (starts ip 192 0 && nat_beq ip.o2 2) (starts ip 198 51 && nat_beq ip.o2 100)
          (starts ip 203 0 && nat_beq ip.o2 113) (leb 224 ip.o0 && leb ip.o0 239) (nat_beq ip.o0 0)
          (nat_beq ip.o0 10) (nat_beq ip.o0 172 && (leb 16 ip.o1 && leb ip.o1 31))
          (starts ip 192 168) (nat_beq ip.o0 100 && (leb 64 ip.o1 && leb ip.o1 127))
          (nat_beq ip.o0 198 && (nat_beq ip.o1 18 || nat_beq ip.o1 19)) (λ h. ground arith))
