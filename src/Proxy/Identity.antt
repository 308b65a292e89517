-- ===== src/Proxy/Identity.antt =====
-- service-proxy.service.ts, `buildHeaders` and `copyResponseHeaders`: which headers are handed on.
use master_gateway_auth.Prelude.{
  String, Bool, true, false, Option, none, some, List, [], ◌∷◌, ◌≡◌, refl, ◌∙◌, ap, ◌⊎◌, inl, inr,
  arith, ◌==◌, eq_iff, if◌then◌else◌, Bool-cases, Option-cases, entry, set_entry, entry-set_entry,
  first_some, first_some-none, includes,
}
use master_gateway_auth.Text.{to_lower}
use master_gateway_auth.Db.{ExternalService}
use master_gateway_auth.Token.{Claims}
use master_gateway_auth.Proxy.{HeaderValue, Request, Upstream}
use master_gateway_auth.Proxy.Headers.{
  Headers, blocked_request_headers, blocked_response_headers, gateway_headers, sent_value,
  set_headers, handed_on, build_headers, copy_response_headers,
}

module _ (up : Upstream) where
  -- The value of the last header of the list that has the name, in lower case.
  abbrev pub last_value : String → Headers → Option String
  last_value n [] = none
  last_value n (h ∷ hs) =
      first_some (last_value n hs) (if n == to_lower h.0 then up.header_value h.0 h.1 else none)

  first_some-if :
      (b : Bool) (o : Option String) (x : String) (y : Option String)
      → first_some o (if b then some x else y)
        ≡ first_some (first_some o (if b then some x else none)) y
  first_some-if true none x y = refl
  first_some-if false none x y = refl
  first_some-if b (some z) x y = refl

  entry-set_headers :
      (n : String) (gs hs : Headers) {hs' : Headers}
      → set_headers up gs hs ≡ some hs'
      → entry n hs' ≡ first_some (last_value n gs) (entry n hs)
  entry-set_headers n [] hs e = ground arith
  entry-set_headers n (g ∷ gs) hs {hs'} e = elim (Option-cases (up.header_value g.0 g.1)) [
    | inl fails ↦ ground arith
    | inr (x, stored) ↦
        let rest : set_headers up gs (set_entry (to_lower g.0) x hs) ≡ some hs' =
          rw (set_headers, stored) at e in
        rw (last_value, stored)
          (entry-set_headers n gs (set_entry (to_lower g.0) x hs) rest
            ∙ ap (first_some (last_value n gs)) (entry-set_entry n (to_lower g.0) x hs)
            ∙ first_some-if (n == to_lower g.0) (last_value n gs) x (entry n hs))
  ]

  -- No header with a blocked name is handed on.
  handed_on-blocked :
      (n : String) (hs : List (String × HeaderValue))
      → includes n blocked_request_headers ≡ true
      → last_value n (handed_on hs) ≡ none
  handed_on-blocked n [] blocked = refl
  handed_on-blocked n (h ∷ hs) blocked =
      elim (Bool-cases (includes (to_lower h.0) blocked_request_headers)) [
        | inl skipped ↦ rw skipped (handed_on-blocked n hs blocked)
        | inr taken ↦ elim (Option-cases (sent_value h.1)) [
          | inl unset ↦ rw (taken, unset) (handed_on-blocked n hs blocked)
          | inr (v, set') ↦
              let other : (n == to_lower h.0) ≡ false =
                other_name (Bool-cases (n == to_lower h.0)) taken in
              rw (taken, set', handed_on-blocked n hs blocked, other)
        ]
      ]
    where
      other_name :
          ((n == to_lower h.0) ≡ true) ⊎ ((n == to_lower h.0) ≡ false)
          → includes (to_lower h.0) blocked_request_headers ≡ false
          → (n == to_lower h.0) ≡ false
      other_name (inr miss) taken = miss
      other_name (inl hit) taken =
          let same : n ≡ to_lower h.0 = (eq_iff n (to_lower h.0)).0 hit in cc

module _ (up : Upstream) (request : Request) (user : Claims) (service : ExternalService) where
  build-steps :
      {hs : Headers}
      → build_headers up request user service ≡ some hs
      → (own : Headers) × (set_headers up (handed_on request.headers) [] ≡ some own)
        × (set_headers up (gateway_headers request user service) own ≡ some hs)
  unfolding build_headers
  build-steps e = elim (Option-cases (set_headers up (handed_on request.headers) [])) [
    | inl fails ↦ ground arith
    | inr (own, set') ↦ (own, set', ground arith)
  ]

  -- Each header of a request that is handed on is what the gateway itself sets under that name;
  -- where it sets none, the last header of that name of the client that is not blocked; names are
  -- compared in lower case.
  pub entry-build_headers :
      (n : String) {hs : Headers}
      → build_headers up request user service ≡ some hs
      → entry n hs
        ≡ first_some
            (last_value up n (gateway_headers request user service))
            (last_value up n (handed_on request.headers))
  entry-build_headers n {hs} e =
      let (own, first, second) = build-steps e in
      entry-set_headers up n (gateway_headers request user service) own second
      ∙ ap (first_some (last_value up n (gateway_headers request user service)))
          (entry-set_headers up n (handed_on request.headers) [] first ∙ first_some-none _)

  -- The headers by which the gateway says who it is and who the user is, the credentials and the
  -- headers of the connection have the value that the gateway sets, or are not there: whatever
  -- headers the client sends.
  pub blocked-eq-gateway :
      (n : String) {hs : Headers}
      → includes n blocked_request_headers ≡ true
      → build_headers up request user service ≡ some hs
      → entry n hs ≡ last_value up n (gateway_headers request user service)
  blocked-eq-gateway n blocked e =
      rw (handed_on-blocked up n request.headers blocked) at (entry-build_headers n e)
      ∙ first_some-none _

-- The value of the last header that has exactly the name.
abbrev pub last_entry : String → Headers → Option String
last_entry n [] = none
last_entry n (h ∷ hs) = first_some (last_entry n hs) (if n == h.0 then some h.1 else none)

abbrev pub is_connection_header : String → Bool
is_connection_header n = includes (to_lower n) blocked_response_headers

entry-copied :
    (n : String) (copied hs : Headers)
    → entry n (copy_response_headers copied hs) ≡ (
        if is_connection_header n
        then entry n copied
        else first_some (last_entry n hs) (entry n copied))
unfolding copy_response_headers
entry-copied n copied [] = same (is_connection_header n) (entry n copied)
  where
    same : (b : Bool) (o : Option String) → o ≡ (if b then o else o)
    same true o = refl
    same false o = refl
entry-copied n copied (h ∷ hs) = elim (Bool-cases (n == h.0)) [
  | inl hit ↦
      let same : n ≡ h.0 = (eq_iff n h.0).0 hit in
      elim (Bool-cases (is_connection_header h.0)) [
        | inl skipped ↦ ground (arith, entry-copied n copied hs)
        | inr taken ↦ rw taken (
            entry-copied n (set_entry h.0 h.1 copied) hs
            ∙ ground (arith, entry-set_entry n h.0 h.1 copied))
      ]
  | inr miss ↦ elim (Bool-cases (is_connection_header h.0)) [
    | inl skipped ↦ rw (skipped, miss, first_some-none (last_entry n hs)) (entry-copied n copied hs)
    | inr taken ↦
        rw (taken, miss, first_some-none (last_entry n hs))
          (rw (entry-set_entry n h.0 h.1 copied, miss) at
            (entry-copied n (set_entry h.0 h.1 copied) hs))
  ]
]

-- Of the answer of a service, no header of the connection is handed back; of every other name,
-- the last header is.
pub entry-copy_response_headers :
    (n : String) (hs : Headers)
    → entry n (copy_response_headers [] hs)
      ≡ (if is_connection_header n then none else last_entry n hs)
entry-copy_response_headers n hs = rw (first_some-none (last_entry n hs)) at (entry-copied n [] hs)
