-- ===== src/Tests/Sessions.antt =====
-- Login, the choice of a role, the issue of a session and internal validation, at a concrete state.
use master_gateway_auth.Prelude.{some, [], ◌∷◌, ◌≡◌, refl, All, includes, or_else, if◌then◌else◌}
use master_gateway_auth.Prog.{ok, err, run, unauthorized, database}
use master_gateway_auth.Db.{activo}
use master_gateway_auth.Token.{Claims, TokenUse, claims_of, verify_gateway_token}
use master_gateway_auth.Token.Laws.{IsVerified}
use master_gateway_auth.Text.{split, trim}
use master_gateway_auth.Auth.Session.{
  session_of, permissions_in, issue_session_tokens, taken, id_taken,
}
use master_gateway_auth.Auth.Session.Issue.{
  session_at, row_at, world_after, drawn, HasRoom, run-issue_session_tokens, issue_with_room,
}
use master_gateway_auth.Auth.Session.Permissions.{is_granted, permissions_in-eq-is_granted}
use master_gateway_auth.Auth.Login.{
  LoginDto, SelectRoleDto, login, select_role, verify_temp_token, open_session,
}
use master_gateway_auth.Auth.Login.Roles.{
  answer, IsOffered, IsChosen, login-eq-answer, login_refuses_alike, login-IsOffered,
  select_role-IsChosen,
}
use master_gateway_auth.Auth.Internal.{valid, validate_internal, validation_of, names_in}
use master_gateway_auth.Auth.Internal.Laws.{
  IsTrusted, validate_internal-IsTrusted, validate_internal-IsVerified,
}
use master_gateway_auth.Tests.Sample.{platform}
use master_gateway_auth.Tests.State.{user, world, access_token}

permissions_in-eq-is_granted_test :
    includes "users:list" (permissions_in world "r2") ≡ is_granted world "r2" "users:list"
permissions_in-eq-is_granted_test = permissions_in-eq-is_granted world "r2" "users:list"

abbrev good : LoginDto
good = record { email = "ana@example.org"; password = "secret" }

abbrev bad : LoginDto
bad = record good { password = "guess" }

login-eq-answer_test :
    run (login platform good) world
    ≡ (ok (answer platform world (user "u1" activo)), record world { draws = 3 })
login-eq-answer_test = login-eq-answer platform good world (user "u1" activo) refl refl

login_refuses_alike_test :
    run (login platform bad) world ≡ (err (unauthorized "Credenciales invalidas"), world)
login_refuses_alike_test = login_refuses_alike platform bad world refl

login-IsOffered_test :
    All
      (IsOffered world (answer platform world (user "u1" activo)).user.id)
      (answer platform world (user "u1" activo)).roles
login-IsOffered_test =
    login-IsOffered platform good world (record world { draws = 3 })
      (answer platform world (user "u1" activo)) login-eq-answer_test

abbrev choice : SelectRoleDto
choice = record {
  temp_token = (answer platform world (user "u1" activo)).temp_token;
  role_id = "r2";
}

room : HasRoom platform "u1" "r2" "CLERK" world
unfolding session_of
room = (refl, refl)

opened : run (select_role platform choice) world ≡ (
  ok (session_at platform "u1" "r2" "CLERK" world),
  world_after platform "u1" "r2" "CLERK" world,
)
unfolding select_role verify_temp_token open_session mathlib.Core.Option.bind
opened = issue_with_room platform "u1" "r2" "CLERK" world room

select_role-IsChosen_example :
    IsChosen platform choice world
      (world_after platform "u1" "r2" "CLERK" world)
      (session_at platform "u1" "r2" "CLERK" world)
select_role-IsChosen_example =
    select_role-IsChosen platform choice world (world_after platform "u1" "r2" "CLERK" world)
      (session_at platform "u1" "r2" "CLERK" world) opened

answered :
    run (validate_internal platform (some "internal") access_token (some "billing")) world
    ≡ (ok (valid "u1" "r2" (some "CLERK") ("users:list" ∷ [])), world)
unfolding validate_internal names_in split trim verify_gateway_token claims_of
answered = refl

validate_internal-IsTrusted_test :
    IsTrusted platform (some "internal") (some "billing")
    × (valid "u1" "r2" (some "CLERK") ("users:list" ∷ [])
        ≡ validation_of (verify_gateway_token platform access_token 5000 (some TokenUse.access)))
    × (world ≡ world)
validate_internal-IsTrusted_test =
    validate_internal-IsTrusted platform (some "internal") access_token (some "billing") world world
      (valid "u1" "r2" (some "CLERK") ("users:list" ∷ [])) answered

validate_internal-IsVerified_test :
    (c : Claims) × IsVerified platform access_token 5000 TokenUse.access c
    × (c.sub ≡ "u1")
    × (c.role_id ≡ "r2")
    × (or_else c.permissions [] ≡ "users:list" ∷ [])
validate_internal-IsVerified_test =
    validate_internal-IsVerified platform (some "internal") access_token (some "billing") world
      world "u1" "r2" (some "CLERK") ("users:list" ∷ []) answered

run-issue_session_tokens_test : run (issue_session_tokens platform "u1" "r2" "CLERK") world ≡ (
    if taken (row_at platform "u1" "r2" "CLERK" world) world.refresh_tokens
    then (err (database "P2002"), drawn platform "u1" "r2" "CLERK" world)
    else if id_taken (row_at platform "u1" "r2" "CLERK" world) world.refresh_tokens
    then (err (database "P2002"), drawn platform "u1" "r2" "CLERK" world)
    else (
      ok (session_at platform "u1" "r2" "CLERK" world),
      world_after platform "u1" "r2" "CLERK" world,
    ))
run-issue_session_tokens_test = run-issue_session_tokens platform "u1" "r2" "CLERK" world
