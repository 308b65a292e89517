-- ===== src/Tests/Probes.antt =====
-- The targets of probes, at concrete addresses.
use master_gateway_auth.Prelude.{none, some, [], ◌∷◌, ◌≡◌, refl, arith, ◌==◌, if◌then◌else◌}
use master_gateway_auth.Prog.{ok}
use master_gateway_auth.Text.{
  split, starts_with, drop_prefix, drop_first_char, drop_last_char, to_lower, join,
}
use master_gateway_auth.Ssrf
use master_gateway_auth.Ssrf.Ranges.{octets, reserved, blocked_reason-eq-reserved}
use master_gateway_auth.Ssrf.Targets.{IsAdmissible, assert_safe-IsAdmissible}

metadata_octets : octets "169.254.169.254" ≡ 169 ∷ 254 ∷ 169 ∷ 254 ∷ []
unfolding split Ssrf.number
metadata_octets = refl

blocked_reason-eq-reserved_example :
    Ssrf.blocked_reason_for_ipv4 "169.254.169.254" ≡ reserved 169 254 169
blocked_reason-eq-reserved_example =
    blocked_reason-eq-reserved "169.254.169.254" 169 254 169 254 metadata_octets (omega arith)
      (omega arith) (omega arith) (omega arith)

-- Both notations of a mapped loopback address are seen through.
mapped_hex_test : Ssrf.blocked_reason_for_ipv6 "::ffff:7f00:1" ≡ some "loopback"
unfolding Ssrf.blocked_reason_for_ipv6 Ssrf.blocked_reason_for_ipv4 Ssrf.is_in_cidr Ssrf.ipv4_to_int
    Ssrf.number Ssrf.parse_hex Ssrf.octet_text to_lower split starts_with drop_prefix join
mapped_hex_test = refl

mapped_decimal_test : Ssrf.blocked_reason_for_ipv6 "::FFFF:127.0.0.1" ≡ some "loopback"
unfolding Ssrf.blocked_reason_for_ipv6 Ssrf.blocked_reason_for_ipv4 Ssrf.is_in_cidr Ssrf.ipv4_to_int
    Ssrf.number to_lower split starts_with drop_prefix
mapped_decimal_test = refl

-- Of the network fe80::/10, only the addresses that start with fe80 are blocked.
link_local_test : Ssrf.blocked_reason_for_ipv6 "fe90::1" ≡ none
unfolding Ssrf.blocked_reason_for_ipv6 to_lower split starts_with drop_prefix
link_local_test = refl

abbrev site : Ssrf.Url
site = record {
  protocol = "https:";
  username = "";
  password = "";
  hostname = "orders.example.org";
  origin = "https://orders.example.org";
  pathname = "/health";
}

-- One site, whose host resolves to a public address.
abbrev pub net : Ssrf.Network
net = record {
  parse_url = λ raw. if raw == "https://orders.example.org/health" then some site else none;
  is_ip = λ host. if host == "93.184.216.34" then 4 else 0;
  lookup = λ host. some "93.184.216.34";
  allow_private_probe_targets = none;
}

abbrev target : Ssrf.ValidatedTarget
target = record { url = site; address = "93.184.216.34" }

accepted : Ssrf.assert_safe_probe_target net "https://orders.example.org/health" ≡ ok target
unfolding Ssrf.assert_safe_probe_target Ssrf.bare_hostname drop_first_char drop_last_char
    Ssrf.blocked_reason_for_ipv4 Ssrf.is_in_cidr Ssrf.ipv4_to_int Ssrf.number split
accepted = refl

assert_safe-IsAdmissible_example : IsAdmissible net "https://orders.example.org/health" target
assert_safe-IsAdmissible_example =
    assert_safe-IsAdmissible net "https://orders.example.org/health" target accepted
