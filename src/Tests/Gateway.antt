-- ===== src/Tests/Gateway.antt =====
-- A service with one route, a request for it, and an upstream that answers.
use Prim.Native.String
use master_gateway_auth.Prelude.{none, some, [], ◌∷◌, ◌==◌, if◌then◌else◌}
use master_gateway_auth.Db.{
  activo, SystemModule, Menu, ExternalService, ExternalServiceRoute, World,
}
use master_gateway_auth.Ssrf
use master_gateway_auth.Proxy.{one, many, undefined, Request, Upstream, Wire, answered}
use master_gateway_auth.Proxy.Forward.{Resolved}
use master_gateway_auth.Tests.State.{world, link, access_claims}

abbrev pub shop : SystemModule
shop = record {
  id = "m1";
  code = "SHOP";
  name = "Shop";
  description = none;
  estado = activo;
  created_by = none;
  updated_by = none;
}

abbrev pub orders_menu : Menu
orders_menu = record {
  id = "n1";
  name = "Orders";
  url = some "/app/orders";
  icon = none;
  order = 1;
  module_id = "m1";
  parent_id = none;
  estado = activo;
  created_by = none;
  updated_by = none;
}

abbrev pub orders_service : ExternalService
orders_service = record {
  id = "s1";
  code = "ORDERS";
  name = "Orders";
  description = none;
  kind = some "NATIVE";
  version = none;
  base_url = "https://orders.example.org";
  health_path = "/health";
  metadata_endpoint = none;
  open_api_path = none;
  authentication_type = some "API_KEY";
  api_key = some "k1";
  last_probe_at = none;
  last_probe_ok = none;
  last_probe_ms = none;
  status = some "UNKNOWN";
  last_sync = none;
  module_id = some "m1";
  estado = activo;
  created_by = none;
  updated_by = none;
}

abbrev pub orders_route : ExternalServiceRoute
orders_route = record {
  id = "x1";
  service_id = "s1";
  menu_id = "n1";
  public_path = "/orders/:id";
  target_path = "/items/:id";
  methods = "GET" ∷ [];
  estado = activo;
  created_by = none;
  updated_by = none;
}

abbrev pub shop_world : World
shop_world = record world {
  modules = shop ∷ [];
  menus = orders_menu ∷ [];
  services = orders_service ∷ [];
  service_routes = orders_route ∷ [];
  role_menus = link "g1" "r2" "n1" ∷ [];
  role_modules = link "g2" "r2" "m1" ∷ [];
}

-- A client that claims to be another user, and sends a key of its own.
abbrev pub request : Request
request = record {
  user = some access_claims;
  method = "get";
  original_url = some "/api/proxy/orders/7?full=1";
  url = "";
  headers =
      ("X-Gateway-User-Id", one "root")
      ∷ ("X-API-Key", one "forged")
      ∷ ("Accept", many ("text/html" ∷ "text/plain" ∷ []))
      ∷ ("Cookie", one "sid=1")
      ∷ [];
  request_id = some "q1";
  body = undefined;
}

abbrev pub up : Upstream
up = record {
  header_value = λ name v. some v;
  resolve_url = λ path base. some (String.◌++◌ base path);
  decode_uri = λ s. some s;
  encode_uri = λ s. s;
  number_of = λ s. some 1;
  fetch = λ n o. answered 200 (("connection", "close") ∷ ("content-type", "text/plain") ∷ []) "7";
  full_access_role_names = none;
  service_proxy_timeout_ms = none;
}

abbrev site : Ssrf.Url
site = record {
  protocol = "https:";
  username = "";
  password = "";
  hostname = "orders.example.org";
  origin = "https://orders.example.org";
  pathname = "/items/7";
}

abbrev pub net : Ssrf.Network
net = record {
  parse_url = λ raw. if raw == "https://orders.example.org/items/7?full=1" then some site else none;
  is_ip = λ host. if host == "93.184.216.34" then 4 else 0;
  lookup = λ host. some "93.184.216.34";
  allow_private_probe_targets = none;
}

abbrev pub checked : Ssrf.ValidatedTarget
checked = record { url = site; address = "93.184.216.34" }

abbrev pub wire : Wire
wire = record { world = shop_world; sent = []; calls = 0 }

abbrev pub resolved : Resolved
resolved = record { route = orders_route; service = orders_service; params = ("id", "7") ∷ [] }
