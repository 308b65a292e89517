-- ===== src/Tests/Keyring.antt =====
-- The keys of the gateway, at a disk that has a private key only.
use master_gateway_auth.Prelude.{
  String, true, none, some, List, [], ◌∷◌, ◌≡◌, refl, ◌==◌, if◌then◌else◌,
}
use master_gateway_auth.Prog.{Result, ok, run}
use master_gateway_auth.Keys
use master_gateway_auth.Keys.{
  KeyTools, Call, ask_private, ask_public, ask_jwks, restart, Answer, key_text, key_set, started,
}
use master_gateway_auth.Keys.Store.{new_process, calls-eq-store}

abbrev tools : KeyTools
tools = record {
  private_key_path = none;
  public_key_path = none;
  resolve =
      λ p. if p == "./keys/private.pem" then "/srv/keys/private.pem" else "/srv/keys/public.pem";
  parent = λ p. "/srv/keys";
  generate_key_pair = λ n. ("new private", "new public");
  export_jwk = λ k. ok (record { key = k; alg = none; kid = none; use_for = none });
  can_make = λ p. true;
  can_write = λ p. true;
}

abbrev disk : List (String × String)
disk = ("/srv/keys/private.pem", "old private") ∷ []

abbrev asked : List Call
asked = ask_private ∷ ask_jwks ∷ restart ∷ ask_public ∷ []

abbrev answered : Result (List Answer)
answered = ok (
    key_text "new private"
    ∷ key_set (
        record {
          key = "new public";
          alg = some "RS256";
          kid = some "master-gateway-v1";
          use_for = some "sig";
        }
        ∷ [])
    ∷ started
    ∷ key_text "new public"
    ∷ [])

calls-eq-store_example : (run (Keys.calls tools asked) (new_process disk 0)).0 ≡ answered
calls-eq-store_example = calls-eq-store tools disk 0 asked refl refl

asked_test : (run (Keys.calls tools asked) (new_process disk 0)).0 ≡ answered
unfolding Keys.ensure_keys_loaded Keys.generate_keys Keys.get_jwks
asked_test = refl

-- The private key that was there is lost.
overwritten_test :
    (run (Keys.get_private_key tools) (new_process disk 0)).1.files
    ≡ ("/srv/keys/private.pem", "new private") ∷ ("/srv/keys/public.pem", "new public") ∷ []
unfolding Keys.ensure_keys_loaded Keys.generate_keys
overwritten_test = refl
