-- ===== src/Ssrf/Ranges.antt =====
-- ssrf-guard.ts: the blocked ranges in terms of the octets of an address.
use master_gateway_auth.Prelude.{
  ℕ, ◌+◌, ◌*◌, ◌/◌, ◌<◌, String, Bool, true, false, ◌&&◌, Option, none, some, List, [], ◌∷◌, ◌≡◌,
  refl, arith, leb, eqb, if◌then◌else◌, map, find, ap, ◌∙◌,
}
use master_gateway_auth.Text.{split}
use master_gateway_auth.Ssrf

abbrev pub address : ℕ → ℕ → ℕ → ℕ → ℕ
address a b c d = ((a * 256 + b) * 256 + c) * 256 + d

-- The private, local and reserved networks, by octets.
abbrev pub reserved : ℕ → ℕ → ℕ → Option String
reserved a b c =
    if eqb a 0
    then some "red actual"
    else if eqb a 10
    then some "red privada"
    else if eqb a 100 && (leb 64 b && leb b 127)
    then some "CGNAT"
    else if eqb a 127
    then some "loopback"
    else if eqb a 169 && eqb b 254
    then some "link-local / metadatos de la nube"
    else if eqb a 172 && (leb 16 b && leb b 31)
    then some "red privada"
    else if eqb a 192 && (eqb b 0 && eqb c 0)
    then some "reservado IETF"
    else if eqb a 192 && eqb b 168
    then some "red privada"
    else if eqb a 198 && (leb 18 b && leb b 19)
    then some "benchmarking"
    else if leb 224 a && leb a 239
    then some "multicast"
    else if leb 240 a
    then some "reservado"
    else none

-- The numbers between the dots.
abbrev pub octets : String → List ℕ
octets ip = map Ssrf.number (split b'.' ip)

abbrev fold : ℕ → List ℕ → ℕ
fold n [] = n
fold n (o ∷ os) = fold (n * 256 + o) os

abbrev reason_at : ℕ → Option String
reason_at x =
    Ssrf.reason_of (find (λ r. Ssrf.in_range x (split b'/' r.cidr)) Ssrf.blocked_ipv4_ranges)

chain :
    (b b' : Bool) (r : Ssrf.BlockedRange) (o : Option Ssrf.BlockedRange) (o' : Option String)
    → b ≡ b'
    → Ssrf.reason_of o ≡ o'
    → Ssrf.reason_of (if b then some r else o) ≡ (if b' then some r.reason else o')
chain true true r o o' e h = refl
chain false false r o o' e h = h
chain true false r o o' e h = cc
chain false true r o o' e h = cc

module _ (a b c d : ℕ) (ha : a < 256) (hb : b < 256) (hc : c < 256) (hd : d < 256) where
  test_0_0_0_0_8 : eqb (address a b c d / 16777216 * 16777216) 0 ≡ (eqb a 0)
  test_0_0_0_0_8 = ground arith

  test_10_0_0_0_8 : eqb (address a b c d / 16777216 * 16777216) 167772160 ≡ (eqb a 10)
  test_10_0_0_0_8 = ground arith

  test_100_64_0_0_10 :
      eqb (address a b c d / 4194304 * 4194304) 1681915904 ≡ (eqb a 100 && (leb 64 b && leb b 127))
  test_100_64_0_0_10 = ground arith

  test_127_0_0_0_8 : eqb (address a b c d / 16777216 * 16777216) 2130706432 ≡ (eqb a 127)
  test_127_0_0_0_8 = ground arith

  test_169_254_0_0_16 : eqb (address a b c d / 65536 * 65536) 2851995648 ≡ (eqb a 169 && eqb b 254)
  test_169_254_0_0_16 = ground arith

  test_172_16_0_0_12 :
      eqb (address a b c d / 1048576 * 1048576) 2886729728 ≡ (eqb a 172 && (leb 16 b && leb b 31))
  test_172_16_0_0_12 = ground arith

  test_192_0_0_0_24 :
      eqb (address a b c d / 256 * 256) 3221225472 ≡ (eqb a 192 && (eqb b 0 && eqb c 0))
  test_192_0_0_0_24 = ground arith

  test_192_168_0_0_16 : eqb (address a b c d / 65536 * 65536) 3232235520 ≡ (eqb a 192 && eqb b 168)
  test_192_168_0_0_16 = ground arith

  test_198_18_0_0_15 :
      eqb (address a b c d / 131072 * 131072) 3323068416 ≡ (eqb a 198 && (leb 18 b && leb b 19))
  test_198_18_0_0_15 = ground arith

  test_224_0_0_0_4 :
      eqb (address a b c d / 268435456 * 268435456) 3758096384 ≡ (leb 224 a && leb a 239)
  test_224_0_0_0_4 = ground arith

  test_240_0_0_0_4 : eqb (address a b c d / 268435456 * 268435456) 4026531840 ≡ (leb 240 a)
  test_240_0_0_0_4 = ground arith

  at_address : reason_at (address a b c d) ≡ reserved a b c
  unfolding split Ssrf.number Ssrf.ipv4_to_int
  at_address = chain _ _ _ _ _ test_0_0_0_0_8 (
      chain _ _ _ _ _ test_10_0_0_0_8 (
        chain _ _ _ _ _ test_100_64_0_0_10 (
          chain _ _ _ _ _ test_127_0_0_0_8 (
            chain _ _ _ _ _ test_169_254_0_0_16 (
              chain _ _ _ _ _ test_172_16_0_0_12 (
                chain _ _ _ _ _ test_192_0_0_0_24 (
                  chain _ _ _ _ _ test_192_168_0_0_16 (
                    chain _ _ _ _ _ test_198_18_0_0_15 (
                      chain _ _ _ _ _ test_224_0_0_0_4
                        (chain _ _ _ _ _ test_240_0_0_0_4 refl))))))))))

combine-octets : (n : ℕ) (os : List String) → Ssrf.combine n os ≡ fold n (map Ssrf.number os)
combine-octets n [] = refl
combine-octets n (o ∷ os) = combine-octets (n * 256 + Ssrf.number o) os

-- The address of four octets is blocked exactly as the table of networks says, with its reason: the
-- shifts, masks and comparisons of the CIDR test are the tests on the octets.
pub blocked_reason-eq-reserved :
    (ip : String) (a b c d : ℕ)
    → octets ip ≡ a ∷ b ∷ c ∷ d ∷ []
    → a < 256
    → b < 256
    → c < 256
    → d < 256
    → Ssrf.blocked_reason_for_ipv4 ip ≡ reserved a b c
unfolding Ssrf.blocked_reason_for_ipv4 Ssrf.is_in_cidr Ssrf.ipv4_to_int
blocked_reason-eq-reserved ip a b c d e ha hb hc hd =
    let whole : fold 0 (a ∷ b ∷ c ∷ d ∷ []) ≡ address a b c d = omega arith in
    ap reason_at (combine-octets 0 (split b'.' ip) ∙ ap (fold 0) e ∙ whole)
    ∙ at_address a b c d ha hb hc hd
