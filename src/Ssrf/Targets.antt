-- ===== src/Ssrf/Targets.antt =====
-- ssrf-guard.ts: what `assertSafeProbeTarget` has established when it returns a target.
use master_gateway_auth.Prelude.{
  String, Bool, true, false, ◌||◌, Option, none, some, ◌≡◌, refl, sym, ◌∙◌, ap, subst, ◌⊎◌, inl,
  inr, arith, ◌==◌, eq_iff, truthy, find, All, All-find, Bool-cases, includes, if◌then◌else◌, eqb,
}
use master_gateway_auth.Prog.{ok}
use master_gateway_auth.Text.{starts_with, to_lower}
use master_gateway_auth.Prog.Outcomes.{err-ne-ok, ok-eq}
use master_gateway_auth.Ssrf

-- The target is a URL with an allowed protocol and without credentials; the address is what its host
-- is or resolves to, and is in no blocked network, unless private targets are allowed.
pub record IsAdmissible (net : Ssrf.Network) (raw : String) (t : Ssrf.ValidatedTarget)
    : Type 0 where
  pub parsed : net.parse_url raw ≡ some t.url
  pub protocol : (t.url.protocol ≡ "http:") ⊎ (t.url.protocol ≡ "https:")
  pub no_username : t.url.username ≡ ""
  pub no_password : t.url.password ≡ ""
  pub resolves : Ssrf.resolved net (Ssrf.bare_hostname t.url.hostname) ≡ some t.address
  pub unblocked :
      (net.allow_private_probe_targets ≡ some "true") ⊎ (Ssrf.blocked_reason net t.address ≡ none)

abbrev IsSaid : Ssrf.BlockedRange → Type 0
IsSaid r = truthy r.reason ≡ true

ranges-IsSaid : All IsSaid Ssrf.blocked_ipv4_ranges
ranges-IsSaid =
    (refl, (refl, (refl, (refl, (refl, (refl, (refl, (refl, (refl, (refl, (refl, tt)))))))))))

said_by :
    (o : Option Ssrf.BlockedRange) (p : Ssrf.BlockedRange → Bool) (r : String)
    → find p Ssrf.blocked_ipv4_ranges ≡ o
    → Ssrf.reason_of o ≡ some r
    → truthy r ≡ true
said_by none p r found e = cc
said_by (some x) p r found e =
    let (said, hit) = All-find IsSaid p Ssrf.blocked_ipv4_ranges ranges-IsSaid found in
    let same : x.reason ≡ r = cc in subst (λ s. truthy s ≡ true) same said

ipv4_said : (ip r : String) → Ssrf.blocked_reason_for_ipv4 ip ≡ some r → truthy r ≡ true
unfolding Ssrf.blocked_reason_for_ipv4
ipv4_said ip r e =
    said_by (find (λ x. Ssrf.is_in_cidr ip x.cidr) Ssrf.blocked_ipv4_ranges)
      (λ x. Ssrf.is_in_cidr ip x.cidr) r refl e

prefix_said :
    (a b c : Bool) (r : String)
    → (if a then some "link-local" else if b || c then some "red privada" else none) ≡ some r
    → truthy r ≡ true
prefix_said true b c r e =
    let same : "link-local" ≡ r = cc in subst (λ s. truthy s ≡ true) same refl
prefix_said false true c r e =
    let same : "red privada" ≡ r = cc in subst (λ s. truthy s ≡ true) same refl
prefix_said false false true r e =
    let same : "red privada" ≡ r = cc in subst (λ s. truthy s ≡ true) same refl
prefix_said false false false r e = cc

groups_said :
    (s : String) (o : Option (String × String)) (r : String)
    → Ssrf.by_groups s o ≡ some r
    → truthy r ≡ true
groups_said s none r e =
    prefix_said (starts_with "fe80" s) (starts_with "fc" s) (starts_with "fd" s) r e
groups_said s (some (high, low)) r e = ipv4_said _ r e

mapping_said :
    (s : String) (o : Option String) (r : String) → Ssrf.by_mapping s o ≡ some r → truthy r ≡ true
mapping_said s none r e = groups_said s (Ssrf.mapped_hex s) r e
mapping_said s (some ip) r e = ipv4_said ip r e

loopback_said :
    (b : Bool) (s r : String)
    → (if b then some "loopback" else Ssrf.by_mapping s (Ssrf.mapped_decimal s)) ≡ some r
    → truthy r ≡ true
loopback_said true s r e = let same : "loopback" ≡ r = cc in subst (λ t. truthy t ≡ true) same refl
loopback_said false s r e = mapping_said s (Ssrf.mapped_decimal s) r e

ipv6_said : (ip r : String) → Ssrf.blocked_reason_for_ipv6 ip ≡ some r → truthy r ≡ true
unfolding Ssrf.blocked_reason_for_ipv6
ipv6_said ip r e = loopback_said (to_lower ip == "::1" || to_lower ip == "::") (to_lower ip) r e

module _ (net : Ssrf.Network) where
  address_said :
      (six : Bool) (address r : String)
      → (if six then Ssrf.blocked_reason_for_ipv6 address else Ssrf.blocked_reason_for_ipv4 address)
        ≡ some r
      → truthy r ≡ true
  address_said true address r e = ipv6_said address r e
  address_said false address r e = ipv4_said address r e

  decided :
      (url : Ssrf.Url) (address : String) (o : Option String) (t : Ssrf.ValidatedTarget)
      → ((r : String) → o ≡ some r → truthy r ≡ true)
      → Ssrf.decide_reason net url address o ≡ ok t
      → (t ≡ record { url = url; address = address }) × (o ≡ none)
  decided url address none t said e = (cc, refl)
  decided url address (some r) t said e = absurd (err-ne-ok (rw (said r refl) at e))

  checked :
      (url : Ssrf.Url) (o : Option String) (t : Ssrf.ValidatedTarget)
      → Ssrf.check_address net url o ≡ ok t
      → (t.url ≡ url)
        × (o ≡ some t.address)
        × ((net.allow_private_probe_targets ≡ some "true")
            ⊎ (Ssrf.blocked_reason net t.address ≡ none))
  checked url none t e = absurd (err-ne-ok e)
  checked url (some address) t e =
      elim (Bool-cases (Ssrf.is_set_true net.allow_private_probe_targets)) [
        | inl private' ↦
            let same : record { url = url; address = address } ≡ t = ok-eq (rw private' at e) in
            (
              sym (ap (λ x. x.url) same),
              ap (λ x. some x.address) same,
              inl (set_true net.allow_private_probe_targets private'),
            )
        | inr public ↦
            let (same, free) =
              decided url address (Ssrf.blocked_reason net address) t
                (address_said (eqb (net.is_ip address) 6) address) (rw public at e) in
            (
              ap (λ x. x.url) same,
              ap (λ x. some x.address) (sym same),
              inr (subst (λ x. Ssrf.blocked_reason net x.address ≡ none) (sym same) free),
            )
      ]
    where
      set_true : (o : Option String) → Ssrf.is_set_true o ≡ true → o ≡ some "true"
      set_true none h = cc
      set_true (some s) h = ap some ((eq_iff s "true").0 h)

  -- The checks on the URL, in their order, up to those on its address.
  checked_url :
      (raw : String) (o : Option Ssrf.Url) (t : Ssrf.ValidatedTarget)
      → net.parse_url raw ≡ o
      → Ssrf.check_url net o ≡ ok t
      → IsAdmissible net raw t
  checked_url raw none t parsed e = absurd (err-ne-ok e)
  checked_url raw (some url) t parsed e =
      elim (Bool-cases (includes url.protocol Ssrf.allowed_protocols)) [
        | inr other ↦ absurd (err-ne-ok (rw other at e))
        | inl listed ↦ elim (Bool-cases (truthy url.username || truthy url.password)) [
          | inl given ↦ absurd (err-ne-ok (rw (listed, given) at e))
          | inr bare ↦
              let (same, resolves, unblocked) =
                checked url (Ssrf.resolved net (Ssrf.bare_hostname url.hostname)) t
                  (rw (listed, bare) at e) in
              record {
                parsed = parsed ∙ ap some (sym same);
                protocol =
                    subst (λ u. (u.protocol ≡ "http:") ⊎ (u.protocol ≡ "https:")) (sym same)
                      (ground (arith, eq_iff url.protocol "http:", eq_iff url.protocol "https:"));
                no_username =
                    subst (λ u. u.username ≡ "") (sym same)
                      (ground (arith, eq_iff url.username ""));
                no_password =
                    subst (λ u. u.password ≡ "") (sym same)
                      (ground (arith, eq_iff url.password ""));
                resolves =
                    subst (λ u. Ssrf.resolved net (Ssrf.bare_hostname u.hostname) ≡ some t.address)
                      (sym same) resolves;
                unblocked = unblocked;
              }
        ]
      ]

-- A target is returned only if the text is a URL, its protocol is http or https, it has no user and
-- no password, and the address that its host is or resolves to is in no blocked network, unless
-- private targets are allowed by the configuration.
pub assert_safe-IsAdmissible :
    (net : Ssrf.Network) (raw : String) (t : Ssrf.ValidatedTarget)
    → Ssrf.assert_safe_probe_target net raw ≡ ok t
    → IsAdmissible net raw t
unfolding Ssrf.assert_safe_probe_target
assert_safe-IsAdmissible net raw t e = checked_url net raw (net.parse_url raw) t refl e
