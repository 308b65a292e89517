-- ===== src/Tests/Refreshes.antt =====
-- The refresh of a session, at concrete tokens and states.
use master_gateway_auth.Prelude.{
  ◌/◌, ◌≤◌, String, Bool, true, false, Option, none, some, List, [], ◌∷◌, ◌≡◌, refl, sym, arith, ap,
  subst, inl, ltb, if◌then◌else◌, any, map,
}
use master_gateway_auth.Prog.{ok, err, run, unauthorized}
use master_gateway_auth.Prog.Keeps.{Keeps}
use master_gateway_auth.Prog.Pool.{Event, turn, pause, interleave}
use master_gateway_auth.Prog.Contest.{winners}
use master_gateway_auth.Db.{RefreshToken}
use master_gateway_auth.Token.{Claims, TokenUse, claims_of, verify_gateway_token}
use master_gateway_auth.Token.Laws.{verify-IsVerified}
use master_gateway_auth.Auth.Session.{session_of, in_family}
use master_gateway_auth.Auth.Refresh
use master_gateway_auth.Auth.Refresh.Once.{Names, attempt, wait, refresh-wins_once}
use master_gateway_auth.Auth.Refresh.Rotation.{
  IsUsable, claimed, next_session, rotated, refresh-eq-rotated, refresh-IsUsable,
}
use master_gateway_auth.Auth.Session.Issue.{HasRoom}
use master_gateway_auth.Auth.Refresh.Replay.{
  TableIsSound, replay_changes_nothing, reuse_revokes_family, family_revoked, refresh-TableIsSound,
}
use master_gateway_auth.Tests.Sample.{platform}
use master_gateway_auth.Tests.State.{
  old_token, old_payload, old_row, old_claims, clerk, world, world_with,
}

old_verified : verify_gateway_token platform old_token 5000 (some TokenUse.refresh) ≡ ok old_claims
unfolding verify_gateway_token claims_of
old_verified = refl

old-IsUsable : IsUsable platform old_token old_row clerk world
unfolding mathlib.Core.Option.bind
old-IsUsable = record {
  claims = old_claims;
  verified = old_verified;
  stored = refl;
  active = refl;
  unrevoked = refl;
  unreplaced = refl;
  unexpired = omega arith;
  hash = refl;
}

old-HasRoom : HasRoom platform "u1" "r2" "CLERK" (claimed old_row world)
unfolding session_of
old-HasRoom = (refl, refl)

refresh-eq-rotated_example :
    run (Refresh.refresh platform old_token) world
    ≡ (ok (next_session platform old_row clerk world), rotated platform old_row clerk world)
refresh-eq-rotated_example =
    refresh-eq-rotated platform old_token old_row clerk world old-IsUsable refl old-HasRoom

refresh-IsUsable_example :
    (t : RefreshToken) × (role : _) × IsUsable platform old_token t role world
refresh-IsUsable_example =
    refresh-IsUsable platform old_token world (next_session platform old_row clerk world)
      (rotated platform old_row clerk world) refresh-eq-rotated_example

-- The rows of the used token: as the code leaves it, and as it never does.
abbrev spent_row : RefreshToken
spent_row = Refresh.replace 4000 "next" old_row

abbrev odd_row : RefreshToken
odd_row = record old_row { revoked_at = some 4000 }

replay_changes_nothing_example :
    run (Refresh.refresh platform old_token) (world_with (spent_row ∷ []))
    ≡ (err (unauthorized "Refresh token invalido"), world_with (spent_row ∷ []))
unfolding mathlib.Core.Option.bind
replay_changes_nothing_example =
    replay_changes_nothing platform old_token old_claims spent_row clerk
      (world_with (spent_row ∷ [])) old_verified refl ((λ e. cc), tt) (inl (λ e. cc))

reuse_revokes_family_test :
    (run (Refresh.refresh platform old_token) (world_with (odd_row ∷ [])) ≡ (
      err (unauthorized "Refresh token reutilizado"),
      family_revoked "u1" "r2" (world_with (odd_row ∷ [])),
    ))
    × (any
          (in_family "u1" "r2")
          (run (Refresh.refresh platform old_token) (world_with (odd_row ∷ []))).1.refresh_tokens
        ≡ false)
unfolding mathlib.Core.Option.bind
reuse_revokes_family_test =
    reuse_revokes_family platform old_token old_claims odd_row clerk (world_with (odd_row ∷ []))
      old_verified refl refl refl

jti_of : Option Claims → String
jti_of none = ""
jti_of (some c) = c.jti

then_some : {A : Type 0} (b : Bool) {x y : A} → (if b then some x else none) ≡ some y → x ≡ y
then_some true e = cc
then_some false e = cc

pub old-Names : Names platform "old" old_token
unfolding claims_of jti_of
old-Names now c e =
    let v = verify-IsVerified platform old_token now TokenUse.refresh c e in
    let same : old_payload ≡ v.payload = then_some (ltb (now / 1000) 70) v.signed in
    let read : claims_of old_payload ≡ some c =
      subst (λ p. claims_of p ≡ some c) (sym same) v.taken_from in
    ap jti_of (sym read)

-- Two requests with the token: the first one claims it, the second one comes between its steps.
abbrev turns : List Event
turns =
    turn 0 ∷ turn 1 ∷ turn 0 ∷ pause 3 ∷ turn 1 ∷ turn 0 ∷ turn 0 ∷ turn 1 ∷ turn 0 ∷ turn 1 ∷ []

refresh-wins_once_example :
    winners (interleave wait turns (map (attempt platform) (old_token ∷ old_token ∷ [])) world).0
    ≤ 1
refresh-wins_once_example =
    refresh-wins_once platform "old" "t1" (old_token ∷ old_token ∷ []) turns world
      (record {
        sound = ((λ e. (refl, refl)), tt);
        bound = ((λ e. refl), tt);
        has_id = refl;
        has_jti = refl;
      })
      (old-Names, (old-Names, tt))

refresh-TableIsSound_test :
    Keeps TableIsSound (Refresh.refresh platform old_token)
    × Keeps TableIsSound (Refresh.logout platform "u1" old_token)
refresh-TableIsSound_test = refresh-TableIsSound platform "u1" old_token
