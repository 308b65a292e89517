-- ===== src/Ssrf.antt =====
-- backend/src/external-services/ssrf-guard.ts: which targets the gateway may probe.
pub mod Ranges
pub mod Targets
use Prim.Native.Char.{code}
use Prim.Native.String
use master_gateway_auth.Prelude.{
  ℕ, zero, suc, ◌+◌, ◌-◌, ◌*◌, ◌/◌, ◌%◌, ◌^◌, String, Bool, true, false, not, ◌&&◌, ◌||◌, Option,
  none, some, List, [], ◌∷◌, ◌==◌, leb, ltb, eqb, truthy, if◌then◌else◌, length, find, all,
  includes, map,
}
use master_gateway_auth.Prog.{Result, ok, err, Failure, bad_request}
use master_gateway_auth.Text.{
  split, starts_with, drop_prefix, drop_first_char, drop_last_char, to_lower, join,
}

-- `Number` of a text of decimal digits
number_from : ℕ → String → ℕ
number_from n String.[] = n
number_from n (String.◌∷◌ c s) = number_from (n * 10 + (code c - 48)) s

unfoldable pub number : String → ℕ
unfolding number_from
number s = number_from 0 s

abbrev pub combine : ℕ → List String → ℕ
combine n [] = n
combine n (o ∷ os) = combine (n * 256 + number o) os

unfoldable pub ipv4_to_int : String → ℕ
ipv4_to_int ip = combine 0 (split b'.' ip)

-- `x & mask`, where the mask has the `bits` upper ones of 32 bits: the lower bits are cleared. The
-- numbers are below 2 ^ 32, so that signed and unsigned readings are equal for the same numbers.
abbrev pub masked : ℕ → ℕ → ℕ
masked x bits = x / 2 ^ (32 - bits) * 2 ^ (32 - bits)

abbrev pub in_range : ℕ → List String → Bool
in_range x (range ∷ bits ∷ rest) =
    eqb (masked x (number bits)) (masked (ipv4_to_int range) (number bits))
in_range x _ = false

unfoldable pub is_in_cidr : String → String → Bool
is_in_cidr ip cidr = in_range (ipv4_to_int ip) (split b'/' cidr)

pub record BlockedRange : Type 0 where
  pub cidr : String
  pub reason : String

abbrev blocked : String → String → BlockedRange
blocked cidr reason = record { cidr = cidr; reason = reason }

abbrev pub blocked_ipv4_ranges : List BlockedRange
blocked_ipv4_ranges =
    blocked "0.0.0.0/8" "red actual"
    ∷ blocked "10.0.0.0/8" "red privada"
    ∷ blocked "100.64.0.0/10" "CGNAT"
    ∷ blocked "127.0.0.0/8" "loopback"
    ∷ blocked "169.254.0.0/16" "link-local / metadatos de la nube"
    ∷ blocked "172.16.0.0/12" "red privada"
    ∷ blocked "192.0.0.0/24" "reservado IETF"
    ∷ blocked "192.168.0.0/16" "red privada"
    ∷ blocked "198.18.0.0/15" "benchmarking"
    ∷ blocked "224.0.0.0/4" "multicast"
    ∷ blocked "240.0.0.0/4" "reservado"
    ∷ []

abbrev pub reason_of : Option BlockedRange → Option String
reason_of none = none
reason_of (some r) = some r.reason

unfoldable pub blocked_reason_for_ipv4 : String → Option String
blocked_reason_for_ipv4 ip = reason_of (find (λ r. is_in_cidr ip r.cidr) blocked_ipv4_ranges)

-- The texts of the regular expressions.
abbrev all_chars : (ℕ → Bool) → String → Bool
all_chars p String.[] = true
all_chars p (String.◌∷◌ c s) = p (code c) && all_chars p s

abbrev is_digit : ℕ → Bool
is_digit c = leb b'0' c && leb c b'9'

abbrev is_hex : ℕ → Bool
is_hex c = is_digit c || leb b'a' c && leb c b'f'

abbrev text_length : String → ℕ
text_length String.[] = 0
text_length (String.◌∷◌ c s) = suc (text_length s)

-- `\d+`, `[0-9a-f]{1,4}`
abbrev pub is_decimal : String → Bool
is_decimal s = truthy s && all_chars is_digit s

abbrev pub is_hex_group : String → Bool
is_hex_group s = truthy s && leb (text_length s) 4 && all_chars is_hex s

abbrev hex_digit : ℕ → ℕ
hex_digit c = if leb b'a' c then c - 87 else c - 48

hex_from : ℕ → String → ℕ
hex_from n String.[] = n
hex_from n (String.◌∷◌ c s) = hex_from (n * 16 + hex_digit (code c)) s

-- `parseInt(text, 16)`
unfoldable pub parse_hex : String → ℕ
unfolding hex_from
parse_hex s = hex_from 0 s

abbrev item_at : ℕ → List String → String
item_at n [] = ""
item_at zero (x ∷ xs) = x
item_at (suc n) (x ∷ xs) = item_at n xs

abbrev digit : ℕ → String
digit n = item_at (n % 10) ("0" ∷ "1" ∷ "2" ∷ "3" ∷ "4" ∷ "5" ∷ "6" ∷ "7" ∷ "8" ∷ "9" ∷ [])

-- The decimal text of an octet.
unfoldable pub octet_text : ℕ → String
octet_text n =
    if ltb n 10
    then digit n
    else if ltb n 100
    then String.◌++◌ (digit (n / 10)) (digit n)
    else String.◌++◌ (digit (n / 100)) (String.◌++◌ (digit (n / 10)) (digit n))

abbrev mapped_prefix : String
mapped_prefix = "::ffff:"

-- What follows the prefix of a mapped address.
abbrev pub mapped_rest : String → Option String
mapped_rest s = if starts_with mapped_prefix s then some (drop_prefix mapped_prefix s) else none

abbrev four_decimals : String → List String → Option String
four_decimals s parts = if eqb (length parts) 4 && all is_decimal parts then some s else none

abbrev in_decimals : Option String → Option String
in_decimals none = none
in_decimals (some rest) = four_decimals rest (split b'.' rest)

-- `/^::ffff:(\d+\.\d+\.\d+\.\d+)$/`: the text of the group
abbrev pub mapped_decimal : String → Option String
mapped_decimal s = in_decimals (mapped_rest s)

abbrev two_groups : List String → Option (String × String)
two_groups (high ∷ low ∷ []) =
    if is_hex_group high && is_hex_group low then some (high, low) else none
two_groups _ = none

abbrev in_groups : Option String → Option (String × String)
in_groups none = none
in_groups (some rest) = two_groups (split b':' rest)

-- `/^::ffff:([0-9a-f]{1,4}):([0-9a-f]{1,4})$/`
abbrev pub mapped_hex : String → Option (String × String)
mapped_hex s = in_groups (mapped_rest s)

-- `[high >> 8, high & 0xff, low >> 8, low & 0xff].join('.')`
abbrev pub dotted : ℕ → ℕ → String
dotted high low = join "." (
    octet_text (high / 256)
    ∷ octet_text (high % 256)
    ∷ octet_text (low / 256)
    ∷ octet_text (low % 256)
    ∷ [])

abbrev pub by_prefix : String → Option String
by_prefix s =
    if starts_with "fe80" s
    then some "link-local"
    else if starts_with "fc" s || starts_with "fd" s
    then some "red privada"
    else none

abbrev pub by_groups : String → Option (String × String) → Option String
by_groups s none = by_prefix s
by_groups s (some (high, low)) = blocked_reason_for_ipv4 (dotted (parse_hex high) (parse_hex low))

abbrev pub by_mapping : String → Option String → Option String
by_mapping s none = by_groups s (mapped_hex s)
by_mapping s (some ip) = blocked_reason_for_ipv4 ip

abbrev pub reason_for_normalized : String → Option String
reason_for_normalized s =
    if s == "::1" || s == "::" then some "loopback" else by_mapping s (mapped_decimal s)

unfoldable pub blocked_reason_for_ipv6 : String → Option String
blocked_reason_for_ipv6 ip = reason_for_normalized (to_lower ip)

-- `URL`, as far as it is read.
pub record Url : Type 0 where
  pub protocol : String
  pub username : String
  pub password : String
  pub hostname : String
  pub origin : String
  pub pathname : String

-- `new URL`, which may throw, `isIP` of node:net, `lookup` of node:dns, which may throw, and
-- `process.env['ALLOW_PRIVATE_PROBE_TARGETS']`
pub record Network : Type 0 where
  pub parse_url : String → Option Url
  pub is_ip : String → ℕ
  pub lookup : String → Option String
  pub allow_private_probe_targets : Option String

pub record ValidatedTarget : Type 0 where
  pub url : Url
  pub address : String

abbrev pub is_set_true : Option String → Bool
is_set_true none = false
is_set_true (some s) = s == "true"

abbrev pub allowed_protocols : List String
allowed_protocols = "http:" ∷ "https:" ∷ []

-- `hostname.replace(/^\[|\]$/g, '')`
unfoldable pub bare_hostname : String → String
bare_hostname h = drop_last_char b']' (drop_first_char b'[' h)

module _ (net : Network) where
  abbrev pub resolved : String → Option String
  resolved host = if eqb (net.is_ip host) 0 then net.lookup host else some host

  abbrev pub blocked_reason : String → Option String
  blocked_reason address =
      if eqb (net.is_ip address) 6
      then blocked_reason_for_ipv6 address
      else blocked_reason_for_ipv4 address

  abbrev after_reason : String
  after_reason =
      "). Se bloquea para prevenir SSRF. Si es un entorno interno, habilita ALLOW_PRIVATE_PROBE_TARGETS."

  abbrev restricted : String → String → String
  restricted host reason = String.◌++◌ "El destino " (
      String.◌++◌ host
        (String.◌++◌ " resuelve a una direccion restringida (" (String.◌++◌ reason after_reason)))

  abbrev pub decide_reason : Url → String → Option String → Result ValidatedTarget
  decide_reason url address none = ok (record { url = url; address = address })
  decide_reason url address (some reason) =
      if truthy reason
      then err (bad_request (restricted (bare_hostname url.hostname) reason))
      else ok (record { url = url; address = address })

  abbrev pub check_address : Url → Option String → Result ValidatedTarget
  check_address url none =
      err (bad_request (String.◌++◌ "No se pudo resolver el host: " (bare_hostname url.hostname)))
  check_address url (some address) =
      if is_set_true net.allow_private_probe_targets
      then ok (record { url = url; address = address })
      else decide_reason url address (blocked_reason address)

  abbrev pub check_url : Option Url → Result ValidatedTarget
  check_url none = err (bad_request "La URL del servicio no es valida")
  check_url (some url) =
      if not (includes url.protocol allowed_protocols)
      then err (
          bad_request (
            String.◌++◌ "Protocolo no permitido: "
              (String.◌++◌ url.protocol ". Solo se admiten http y https")))
      else if truthy url.username || truthy url.password
      then err (bad_request "La URL no debe incluir credenciales")
      else check_address url (resolved (bare_hostname url.hostname))

  unfoldable pub assert_safe_probe_target : String → Result ValidatedTarget
  assert_safe_probe_target raw = check_url (net.parse_url raw)
