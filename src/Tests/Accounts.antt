-- ===== src/Tests/Accounts.antt =====
-- The accounts of users, at a concrete state.
use Prim.Native.String
use master_gateway_auth.Prelude.{String, none, some, [], ◌∷◌, ◌≡◌, ◌≢◌, refl, eq_iff}
use master_gateway_auth.Prog.{ok, err, run, unauthorized, forbidden, not_found}
use master_gateway_auth.Db.{activo, User, World}
use master_gateway_auth.Platform.{Hashes, TempToken}
use master_gateway_auth.Token.{TokenUse, claims_of, verify_gateway_token}
use master_gateway_auth.Auth.Login
use master_gateway_auth.Auth.Login.Roles.{answer}
use master_gateway_auth.Auth.Refresh
use master_gateway_auth.Menus.{Field}
use master_gateway_auth.Users
use master_gateway_auth.Users.Removal.{IsRemoved, removed, remove-IsRemoved}
use master_gateway_auth.Users.Lockout.{
  removed-refresh_refused, removed-select_role_refused, removed-login,
}
use master_gateway_auth.Users.Creation.{
  created, world_created, CreateOutcome, create-IsCreated, created-login,
}
use master_gateway_auth.Users.Password.{updated-login}
use master_gateway_auth.Tests.Sample.{platform}
use master_gateway_auth.Tests.State.{role, user, clerk, world, old_token, old_claims, old_row}

-- Two users, of whom the first one is removed.
abbrev second : User
second = record (user "u3" activo) { email = "eva@example.org" }

abbrev pub before : World
before = record world { users = user "u1" activo ∷ second ∷ [] }

abbrev pub after : World
after = removed "u1" "u9" before

pub removes : run (Users.remove "u1" "u9") before ≡ (ok tt, after)
unfolding Users.remove
removes = refl

remove-IsRemoved_example : (◌≢◌ {A = String} "u1" "u9") × IsRemoved "u1" before after
remove-IsRemoved_example = remove-IsRemoved "u1" "u9" before after removes

verified : verify_gateway_token platform old_token 5000 (some TokenUse.refresh) ≡ ok old_claims
unfolding verify_gateway_token claims_of
verified = refl

stored : Refresh.stored_token after "old" ≡ some (Users.revoke_token 5000 "u9" old_row, clerk)
unfolding mathlib.Core.Option.bind
stored = refl

removed-refresh_refused_test :
    run (Refresh.refresh platform old_token) after
    ≡ (err (unauthorized "Refresh token invalido"), after)
removed-refresh_refused_test =
    removed-refresh_refused platform "u1" "u9" before after old_token old_claims
      (Users.revoke_token 5000 "u9" old_row) clerk removes verified stored refl

abbrev temporary : TempToken
temporary = record { sub = "u1"; jti = "temporary"; email = "ana@example.org" }

abbrev choice : Login.SelectRoleDto
choice = record { temp_token = platform.temp_sign temporary "5m" 0; role_id = "r2" }

removed-select_role_refused_test :
    run (Login.select_role platform choice) after
    ≡ (err (forbidden "El rol no pertenece al usuario"), after)
removed-select_role_refused_test =
    removed-select_role_refused platform "u1" "u9" before after choice temporary removes refl refl

abbrev login_dto : Login.LoginDto
login_dto = record { email = "eva@example.org"; password = "secret" }

logs_in :
    run (Login.login platform login_dto) after
    ≡ (ok (answer platform after second), record after { draws = 3 })
unfolding Login.login Login.login_found
logs_in = refl

removed-login_test : (answer platform after second).user.id ≢ "u1"
removed-login_test =
    removed-login platform "u1" "u9" before after (record after { draws = 3 }) login_dto
      (answer platform after second) removes logs_in

abbrev with_role : World
with_role = record world { roles = role "r9" "USER" ∷ [] }

abbrev dto : Users.CreateUserDto
dto = record {
  email = "leo@example.org";
  password = "Secret01";
  first_name = "Leo";
  last_name = none;
}

abbrev with_user : World
with_user = world_created platform dto "u9" with_role (role "r9" "USER")

creates :
    run (Users.create platform dto "u9") with_role
    ≡ (ok (Login.omit_password (created platform dto "u9" with_role)), with_user)
unfolding Users.create
creates = refl

create-IsCreated_example :
    CreateOutcome platform dto "u9" with_role (run (Users.create platform dto "u9") with_role)
create-IsCreated_example = create-IsCreated platform dto "u9" with_role

-- Without a role USER, the row that was written is gone after the failure.
rolled_back_test :
    run (Users.create platform dto "u9") world ≡ (err (not_found "Rol USER no encontrado"), world)
unfolding Users.create
rolled_back_test = refl

abbrev new_password : Users.UpdateUserDto
new_password = record {
  email = none;
  password = some "mine";
  first_name = none;
  last_name = Field.absent;
}

-- `lastName: null` clears the column.
cleared_test :
    (Users.apply_update (record new_password { last_name = Field.null }) none "u1" second).last_name
    ≡ none
cleared_test = refl

platform-Hashes : Hashes platform
platform-Hashes = record {
  verify_hash = λ salt text. (eq_iff (String.◌++◌ "hash:" text) (String.◌++◌ "hash:" text)).1 refl;
}

created-login_example :
    run
      (Login.login platform (record { email = "leo@example.org"; password = "Secret01" }))
      with_user
    ≡ (
      ok (answer platform with_user (created platform dto "u9" with_role)),
      record with_user { draws = 6 },
    )
created-login_example =
    created-login platform dto "u9" with_role with_user
      (Login.omit_password (created platform dto "u9" with_role)) platform-Hashes creates

-- The clerk sets the password of the second user.
abbrev taken_over : User
taken_over = Users.apply_update new_password (some (platform.argon_hash 2 "mine")) "u1" second

abbrev with_password : World
with_password = record before { users = user "u1" activo ∷ taken_over ∷ []; draws = 3 }

sets_password :
    run (Users.update platform "u3" new_password "u1") before
    ≡ (ok (Login.omit_password taken_over), with_password)
unfolding Users.update
sets_password = refl

updated-login_example :
    run
      (Login.login platform (record { email = "eva@example.org"; password = "mine" }))
      with_password
    ≡ (ok (answer platform with_password taken_over), record with_password { draws = 4 })
updated-login_example =
    updated-login platform "u3" "u1" "mine" "eva@example.org" new_password before with_password
      (Login.omit_password taken_over) taken_over platform-Hashes refl sets_password refl refl
