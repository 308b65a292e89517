-- ===== src/Proxy.antt =====
-- backend/src/service-proxy/service-proxy.service.ts: requests that the gateway hands on to the
-- external services. Here are the request, what is sent, and the functions of the platform.
pub mod Paths
pub mod Headers
pub mod Forward
pub mod Identity
pub mod Forwarded
pub mod Resolution
pub mod Matching
pub mod Removed
use master_gateway_auth.Prelude.{ℕ, ◌+◌, String, Option, List, ◌++◌, [], ◌∷◌}
use master_gateway_auth.Prog.{Prog, ret, atomic}
use master_gateway_auth.Db.{World}
use master_gateway_auth.Token.{Claims}

-- The value of a header of the request, as node:http gives it: `string | string[] | undefined`.
pub data HeaderValue : Type 0 where
  one : String → HeaderValue
  many : List String → HeaderValue
  missing : HeaderValue

-- The body of the request. A value that was parsed stands as the text that `JSON.stringify` gives for
-- it, a buffer as its text.
pub data Body : Type 0 where
  undefined null : Body
  text buffer value : String → Body

-- `RequestWithUser`, as far as it is read
pub record Request : Type 0 where
  pub user : Option Claims
  pub method : String
  pub original_url : Option String
  pub url : String
  pub headers : List (String × HeaderValue)
  pub request_id : Option String
  pub body : Body

-- The arguments of `fetch`. The redirections are `manual` in each call.
pub record Outgoing : Type 0 where
  pub target : String
  pub method : String
  pub headers : List (String × String)
  pub body : Option String
  pub timeout_ms : ℕ

-- What `fetch` and the read of the body come to: an answer, a `TimeoutError` or another error.
pub data Fetched : Type 0 where
  answered : ℕ → List (String × String) → String → Fetched
  timed_out failed : Fetched

pub record ProxyResult : Type 0 where
  pub status_code : ℕ
  pub headers : List (String × String)
  pub body : String

pub record Upstream : Type 0 where
  -- the value that `Headers.set(name, value)` stores; it throws for a malformed name or value
  pub header_value : String → String → Option String
  -- `new URL(path, base).toString()`, which throws for a malformed one
  pub resolve_url : String → String → Option String
  -- `decodeURIComponent`, which throws for a malformed text, and `encodeURIComponent`
  pub decode_uri : String → Option String
  pub encode_uri : String → String
  -- the number that `AbortSignal.timeout(Number(text))` waits; it throws where that is none
  pub number_of : String → Option ℕ
  -- `fetch`, the n-th time that the gateway calls it
  pub fetch : ℕ → Outgoing → Fetched
  -- `configService.get`
  pub full_access_role_names : Option String
  pub service_proxy_timeout_ms : Option String

-- The state: the database, and all that was sent to the services, the last one at the end.
pub record Wire : Type 0 where
  pub world : World
  pub sent : List Outgoing
  pub calls : ℕ

-- One call of `fetch`.
abbrev pub contact : Upstream → Outgoing → Prog Wire Fetched
contact up o =
    atomic (λ s. record s { sent = s.sent ++ o ∷ []; calls = s.calls + 1 })
      (λ s. ret (up.fetch s.calls o))
