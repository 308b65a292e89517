-- ===== src/Auth/Internal.antt =====
-- auth.service.ts: `validateInternal`, by which a service of the platform asks about a token.
pub mod Laws
use Prim.Native.Char.{Char, code}
use Prim.Native.String
use master_gateway_auth.Prelude.{
  ℕ, String, Bool, true, false, not, ◌&&◌, ◌||◌, Option, none, some, List, [], ◌∷◌, ◌++◌, ◌==◌,
  or_else, has_text, truthy, if◌then◌else◌, eqb, map, select, includes,
}
use master_gateway_auth.Prog.{Prog, Result, ok, err, ret, raise, unauthorized, ◌>>=◌}
use master_gateway_auth.Db.{World, read_clock}
use master_gateway_auth.Platform.{Platform}
use master_gateway_auth.Token.{Claims, access, verify_gateway_token}
use master_gateway_auth.Text.{split, trim}

pub data Validation : Type 0 where
  invalid : Validation
  valid :
      (user_id role_id : String) (role_name : Option String) (permissions : List String)
      → Validation

-- `(list ?? '').split(',').map((s) => s.trim()).filter(Boolean)`
unfoldable pub names_in : Option String → List String
names_in list = select truthy (map trim (split b',' (or_else list "")))

abbrev pub is_allowed_in : List String → Option String → Bool
is_allowed_in names none = false
is_allowed_in names (some s) = truthy s && includes s names

-- `!expectedKey || apiKey !== expectedKey` does not hold
abbrev pub key_matches : Option String → Option String → Bool
key_matches none given = false
key_matches (some key) none = false
key_matches (some key) (some given) = truthy key && given == key

abbrev pub validation_of : Result Claims → Validation
validation_of (ok c) = valid c.sub c.role_id c.role_name (or_else c.permissions [])
validation_of (err e) = invalid

module _ (pf : Platform) where
  abbrev pub is_allowed_internal_service : Option String → Bool
  is_allowed_internal_service service =
      is_allowed_in (names_in pf.internal_allowed_services) service

  unfoldable pub validate_internal :
      (api_key : Option String)
      → (token : String) → (service : Option String) → Prog World Validation
  validate_internal api_key token service =
      if not (key_matches pf.internal_api_key api_key)
      then raise (unauthorized "API key interna invalida")
      else if not (is_allowed_internal_service service)
      then raise (unauthorized "Servicio interno no autorizado")
      else do
        now ← read_clock
        ret (validation_of (verify_gateway_token pf token now (some access)))
