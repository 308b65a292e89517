-- ===== src/Guards/Policy.antt =====
-- backend/src/common/policy: the policy engine is asked only where its address is configured.
pub mod Chain
use Prim.Native.String
use master_gateway_auth.Prelude.{
  String, Bool, true, false, not, ◌&&◌, Option, none, some, List, [], ◌∷◌, or_else, has_text,
  if◌then◌else◌,
}
use master_gateway_auth.Prog.{Prog, Result, ok, err, ret, raise, lift, forbidden, ◌>>=◌, ◌>>◌}
use master_gateway_auth.Db.{World}
use master_gateway_auth.Platform.{Platform}
use master_gateway_auth.Token.{Claims}
use master_gateway_auth.Text.{to_lower, replace_char, drop_first_char, drop_last_char}
use master_gateway_auth.Guards.{demands, roles_guard, permissions_guard, jwt_auth_guard}

pub record Subject : Type 0 where
  pub user_id : String
  pub role_id : String
  pub role_name : Option String
  pub permissions : List String

pub record PolicyInput : Type 0 where
  pub subject : Subject
  pub action : String
  pub resource : String

-- What comes back from `fetch`: an answer with its `ok` and the `result.allow` of its body, if
-- there is one, or a failure (no connection, a timeout, a body that is no JSON).
pub data OpaReply : Type 0 where
  answered : (success : Bool) (allow : Option Bool) → OpaReply
  failed : OpaReply

pub data PolicyDecision : Type 0 where
  disabled : PolicyDecision
  opa : (allow : Bool) → PolicyDecision

abbrev pub decision_of : OpaReply → PolicyDecision
decision_of (answered true (some allow)) = opa allow
decision_of (answered true none) = opa false
decision_of (answered false allow) = opa false
decision_of failed = opa false

-- `PolicyService.evaluate`, with the configured `OPA_URL` and the engine behind it
unfoldable pub evaluate : Option String → (PolicyInput → OpaReply) → PolicyInput → PolicyDecision
evaluate url engine input = if has_text url then decision_of (engine input) else disabled

-- The metadata of a handler and its request.
pub record Endpoint : Type 0 where
  pub roles : Option (List String)
  pub permissions : Option (List String)
  pub policy : Option (String × String)
  pub method : Option String
  pub url : Option String

-- `inferAction`
unfoldable pub infer_action : Endpoint → String
infer_action e =
    String.◌++◌
      (replace_char b'/' ":" (drop_last_char b'/' (drop_first_char b'/' (or_else e.url ""))))
      (String.◌++◌ ":" (to_lower (or_else e.method "get")))

abbrev first_or : String → List String → String
first_or d [] = d
first_or d (p ∷ ps) = p

unfoldable pub action_of : Endpoint → Option (String × String) → String
action_of e (some (action, resource)) = action
action_of e none = first_or (infer_action e) (demands e.permissions)

abbrev pub resource_of : Option (String × String) → String
resource_of none = ""
resource_of (some (action, resource)) = resource

abbrev pub input_of : Endpoint → Claims → PolicyInput
input_of e user = record {
  subject = record {
    user_id = user.sub;
    role_id = user.role_id;
    role_name = user.role_name;
    permissions = or_else user.permissions [];
  };
  action = action_of e e.policy;
  resource = resource_of e.policy;
}

abbrev pub enforce : PolicyDecision → Result Bool
enforce disabled = ok true
enforce (opa allow) = if not allow then err (forbidden "Politica denego la operacion") else ok true

-- `PolicyGuard.canActivate`
unfoldable pub policy_guard :
    Option String → (PolicyInput → OpaReply) → Endpoint → Option Claims → Result Bool
unfolding evaluate
policy_guard url engine e none = err (forbidden "Usuario autenticado requerido")
policy_guard url engine e (some user) = enforce (evaluate url engine (input_of e user))

-- What the framework makes of a guard: `false` is an exception too.
abbrev pub pass : Result Bool → Prog World (Unit {0})
pass (ok true) = ret tt
pass (ok false) = raise (forbidden "Forbidden resource")
pass (err x) = raise x

module _ (pf : Platform) (url : Option String) (engine : PolicyInput → OpaReply) where
  -- `@UseGuards(JwtAuthGuard, RolesGuard, PermissionsGuard, PolicyGuard)`: the guards in their order;
  -- the result is the user that the handler receives.
  unfoldable pub guard_chain : Endpoint → Option String → Prog World Claims
  guard_chain e header = do
    user ← jwt_auth_guard pf header
    pass (roles_guard e.roles (some user))
    pass (permissions_guard e.permissions (some user))
    pass (policy_guard url engine e (some user))
    ret user
