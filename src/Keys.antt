-- ===== src/Keys.antt =====
-- backend/src/common/keys/keys.service.ts: the pair of keys that the gateway signs with.
pub mod Held
pub mod Store
use mathlib.Core.Option
use master_gateway_auth.Prelude.{
  ℕ, ◌+◌, String, Bool, true, false, ◌&&◌, Option, none, some, List, [], ◌∷◌, or_else, truthy,
  if◌then◌else◌, entry, set_entry,
}
use master_gateway_auth.Prog.{
  Prog, Result, ok, err, thrown, ret, run, query, modify, guard, lift, ◌>>=◌, ◌>>◌,
}
use master_gateway_auth.Token.{algorithm}

-- A key in the format of `jose`; `key` stands for the members that are numbers of the key.
pub record Jwk : Type 0 where
  pub key : String
  pub alg : Option String
  pub kid : Option String
  pub use_for : Option String

-- What the service uses: the two settings, `resolve` of a path, and of a path with `..`,
-- `generateKeyPairSync`, `exportJWK` of the key that `createPublicKey` reads, and whether the disk
-- lets a directory be made and a file be written.
pub record KeyTools : Type 0 where
  pub private_key_path : Option String
  pub public_key_path : Option String
  pub resolve : String → String
  pub parent : String → String
  pub generate_key_pair : ℕ → String × String
  pub export_jwk : String → Result Jwk
  pub can_make : String → Bool
  pub can_write : String → Bool

-- The fields of the service, the files of the disk, and how many pairs were generated.
pub record KeyState : Type 0 where
  pub files : List (String × String)
  pub generated : ℕ
  pub private_key : String
  pub public_key : String
  pub jwks_cache : Option (List Jwk)

-- The service of a process that starts: nothing but the disk is left.
abbrev pub restarted : KeyState → KeyState
restarted s = record s { private_key = ""; public_key = ""; jwks_cache = none }

-- What is asked of the service; `restart` starts the process anew, up to `onModuleInit`.
pub data Call : Type 0 where
  ask_private ask_public ask_jwks restart : Call

pub data Answer : Type 0 where
  key_text : String → Answer
  key_set : List Jwk → Answer
  started : Answer

abbrev pub both : Option String → Option String → Option (String × String)
both none public = none
both (some priv) none = none
both (some priv) (some public) = some (priv, public)

abbrev pub take_keys : String × String → KeyState → KeyState
take_keys pair s = record s { private_key = pair.0; public_key = pair.1; jwks_cache = none }

abbrev pub is_loaded : KeyState → Bool
is_loaded s = truthy s.private_key && truthy s.public_key

abbrev pub as_signature_key : Jwk → Jwk
as_signature_key jwk = record jwk {
  alg = some algorithm;
  kid = some "master-gateway-v1";
  use_for = some "sig";
}

-- The end of `getJwks`.
abbrev pub cache_jwks : Jwk → Prog KeyState (List Jwk)
cache_jwks jwk = do
  let keys = as_signature_key jwk ∷ []
  modify (λ s. record s { jwks_cache = some keys })
  ret keys

module _ (t : KeyTools) where
  abbrev pub priv_path : String
  priv_path = t.resolve (or_else t.private_key_path "./keys/private.pem")

  abbrev pub pub_path : String
  pub_path = t.resolve (or_else t.public_key_path "./keys/public.pem")

  -- Both files, if they are there.
  abbrev pub stored : List (String × String) → Option (String × String)
  stored files = both (entry priv_path files) (entry pub_path files)

  abbrev pub write_file : String → String → Prog KeyState (Unit {0})
  write_file path content =
      guard (t.can_write path) (thrown "EACCES")
      >> modify (λ s. record s { files = set_entry path content s.files })

  unfoldable pub generate_keys : Prog KeyState (Unit {0})
  generate_keys = do
    pair ← query (λ s. t.generate_key_pair s.generated)
    modify (λ s. record s { generated = s.generated + 1 })
    write_file priv_path pair.0
    write_file pub_path pair.1
    modify (take_keys pair)

  abbrev pub load_keys : Option (String × String) → Prog KeyState (Unit {0})
  load_keys none = guard (t.can_make (t.parent priv_path)) (thrown "EACCES") >> generate_keys
  load_keys (some pair) = modify (take_keys pair)

  unfoldable pub ensure_keys_loaded : Prog KeyState (Unit {0})
  ensure_keys_loaded = do
    s ← query (λ s. s)
    if is_loaded s then ret tt else load_keys (stored s.files)

  abbrev pub get_private_key : Prog KeyState String
  get_private_key = ensure_keys_loaded >> query (λ s. s.private_key)

  abbrev pub get_public_key : Prog KeyState String
  get_public_key = ensure_keys_loaded >> query (λ s. s.public_key)

  abbrev pub build_jwks : Option (List Jwk) → Prog KeyState (List Jwk)
  build_jwks (some cached) = ret cached
  build_jwks none = do public ← query (λ s. s.public_key); lift (t.export_jwk public) >>= cache_jwks

  unfoldable pub get_jwks : Prog KeyState (List Jwk)
  get_jwks = ensure_keys_loaded >> (query (λ s. s.jwks_cache) >>= build_jwks)

  abbrev pub call : Call → Prog KeyState Answer
  call ask_private = get_private_key >>= λ k. ret (key_text k)
  call ask_public = get_public_key >>= λ k. ret (key_text k)
  call ask_jwks = get_jwks >>= λ ks. ret (key_set ks)
  call restart = modify restarted >> (ensure_keys_loaded >>= λ _. ret started)

  abbrev pub calls : List Call → Prog KeyState (List Answer)
  calls [] = ret []
  calls (c ∷ cs) = call c >>= λ a. calls cs >>= λ rest. ret (a ∷ rest)
