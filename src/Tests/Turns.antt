-- ===== src/Tests/Turns.antt =====
-- Requests of all kinds that take turns, at a concrete state.
use master_gateway_auth.Prelude.{none, some, List, [], ◌∷◌, ◌≡◌, refl, map}
use master_gateway_auth.Prog.{Failure, ok, err, run}
use master_gateway_auth.Prog.Pool.{Event, turn, pause, interleave}
use master_gateway_auth.Db.{World}
use master_gateway_auth.Token.{TokenUse, claims_of, verify_gateway_token}
use master_gateway_auth.Auth.Refresh
use master_gateway_auth.Auth.Refresh.Once.{IsStored, wait}
use master_gateway_auth.Auth.Refresh.Replay.{TableIsSound}
use master_gateway_auth.Services.Probe
use master_gateway_auth.Requests
use master_gateway_auth.Requests.{Request, Surroundings, handle}
use master_gateway_auth.Requests.Spent.{requests-TableIsSound}
use master_gateway_auth.Requests.Ended.{logged_out-refused, removed-stays_refused}
use master_gateway_auth.Tests.Sample.{platform}
use master_gateway_auth.Tests.State.{old_token, old_claims, world}
use master_gateway_auth.Tests.Refreshes.{old-Names}
use master_gateway_auth.Tests.Probes.{net}
use master_gateway_auth.Tests.Accounts.{before, after, removes}

abbrev surroundings : Surroundings
surroundings = record {
  platform = platform;
  network = net;
  internet = record {
    get = λ now address. Probe.timed_out;
    parse_paths = λ body. none;
    parse_metadata = λ body. none;
    number_text = λ n. "10000";
  };
  random_key = λ n. "key";
}

-- The old token is used again, a user is created, and the user of the token logs out.
abbrev requests : List Request
requests =
    Requests.refresh_session old_token
    ∷ Requests.create_user
        (record {
          email = "new@example.org";
          password = "secret";
          first_name = "N";
          last_name = none;
        })
        "u2"
    ∷ Requests.log_out "u1" old_token
    ∷ []

abbrev turns : List Event
turns =
    turn 1 ∷ turn 0 ∷ turn 0 ∷ pause 9 ∷ turn 1 ∷ turn 2 ∷ turn 0 ∷ turn 1 ∷ turn 2 ∷ turn 2 ∷ []

old_verified : verify_gateway_token platform old_token 5000 (some TokenUse.refresh) ≡ ok old_claims
unfolding verify_gateway_token claims_of
old_verified = refl

world-IsStored : IsStored "old" "t1" world
world-IsStored = record {
  sound = ((λ e. (refl, refl)), tt);
  bound = ((λ e. refl), tt);
  has_id = refl;
  has_jti = refl;
}

after-IsStored : IsStored "old" "t1" after
after-IsStored = record {
  sound = ((λ e. cc), tt);
  bound = ((λ e. refl), tt);
  has_id = refl;
  has_jti = refl;
}

abbrev logged_out : World
logged_out = (run (Refresh.logout platform "u1" old_token) world).1

logged_out-refused_example :
    (e : Failure) × (run
        (Refresh.refresh platform old_token)
        (interleave wait turns (map (handle surroundings) requests) logged_out).1
      ≡ (err e, (interleave wait turns (map (handle surroundings) requests) logged_out).1))
logged_out-refused_example =
    logged_out-refused surroundings "old" "t1" "u1" old_token requests turns old_claims world
      logged_out world-IsStored ((λ e. (refl, refl)), tt) old-Names old_verified refl

removed-stays_refused_example :
    (e : Failure) × (run
        (Refresh.refresh platform old_token)
        (interleave wait turns (map (handle surroundings) requests) after).1
      ≡ (err e, (interleave wait turns (map (handle surroundings) requests) after).1))
removed-stays_refused_example =
    removed-stays_refused surroundings "old" "t1" "u1" "u9" old_token requests turns before after
      removes after-IsStored ((λ e. (refl, refl)), tt) old-Names

requests-TableIsSound_example :
    TableIsSound (interleave wait turns (map (handle surroundings) requests) world).1
requests-TableIsSound_example =
    requests-TableIsSound surroundings requests turns world ((λ e. (refl, refl)), tt)
