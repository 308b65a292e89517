-- ===== src/Requests/Sessions.antt =====
-- auth.service.ts: the steps of its handlers, and the refresh tokens.
use master_gateway_auth.Prelude.{String, Option, none, some, List}
use master_gateway_auth.Prog.Moves.{Moves, moves_rules}
use master_gateway_auth.Db.{User, Role}
use master_gateway_auth.Platform.{Platform, TempToken}
use master_gateway_auth.Auth.Life.{EvolvesIn, same}
use master_gateway_auth.Auth.Internal
use master_gateway_auth.Auth.Login
use master_gateway_auth.Auth.Refresh.Steps.{Moves-issue_session_tokens}
use master_gateway_auth.Requests.Rules.{SameTokens, token_rules}

module _ (pf : Platform) where
  login_found-same :
      (dto : Login.LoginDto) (o : Option (User × List Login.RoleView))
      → Moves SameTokens (Login.login_found pf dto o)
  unfolding Login.login_found
  login_found-same dto none = search token_rules
  login_found-same dto (some (u, roles)) = search token_rules depth 12

  pub login-same : (dto : Login.LoginDto) → Moves SameTokens (Login.login pf dto)
  unfolding Login.login
  login-same dto = search (token_rules, login_found-same) depth 12

  pub validate-same :
      (api_key : Option String) (token : String) (service : Option String)
      → Moves SameTokens (Internal.validate_internal pf api_key token service)
  unfolding Internal.validate_internal
  validate-same api_key token service = search token_rules depth 12

  open_session-Evolves :
      (p : TempToken) (o : Option Role) → Moves EvolvesIn (Login.open_session pf p o)
  unfolding Login.open_session
  open_session-Evolves p none = search moves_rules
  open_session-Evolves p (some role) = search Moves-issue_session_tokens

  pub select_role-Evolves : (dto : Login.SelectRoleDto) → Moves EvolvesIn (Login.select_role pf dto)
  unfolding Login.select_role Login.verify_temp_token
  select_role-Evolves dto = search (moves_rules, same, open_session-Evolves) depth 12
