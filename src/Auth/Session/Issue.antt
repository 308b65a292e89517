-- ===== src/Auth/Session/Issue.antt =====
-- auth.service.ts: what `issueSessionTokens` returns and stores.
use master_gateway_auth.Prelude.{
  ◌+◌, String, Bool, true, false, [], ◌∷◌, ◌++◌, ◌≡◌, ◌∙◌, ap, sym, refl, if◌then◌else◌,
}
use master_gateway_auth.Prog.Outcomes.{err-ne-ok, ok-eq}
use master_gateway_auth.Prog.{ret, raise, Result, ok, err, run, database, ◌>>=◌}
use master_gateway_auth.Db.{RefreshToken, World}
use master_gateway_auth.Platform.{Platform}
use master_gateway_auth.Auth.Session.{
  SessionTokens, session_of, session_row, permissions_in, taken, id_taken, store_token,
  issue_session_tokens,
}

module _ (pf : Platform) (user_id role_id role_name : String) (w : World) where
  -- The session, from the draws that come next.
  abbrev pub session_at : SessionTokens
  session_at =
      session_of pf user_id role_id role_name (pf.uuid w.draws) (pf.uuid (w.draws + 1))
        (permissions_in w role_id) w.clock w.clock

  abbrev pub row_at : RefreshToken
  row_at =
      session_row pf user_id session_at (pf.uuid (w.draws + 1 + 1 + 1)) (w.draws + 1 + 1) w.clock

  -- The new row clashes with no row that is there.
  abbrev pub HasRoom : Type 0
  HasRoom = (taken row_at w.refresh_tokens ≡ false) × (id_taken row_at w.refresh_tokens ≡ false)

  abbrev pub world_after : World
  world_after = record w {
    refresh_tokens = w.refresh_tokens ++ row_at ∷ [];
    draws = w.draws + 1 + 1 + 1 + 1;
  }

  abbrev pub drawn : World
  drawn = record w { draws = w.draws + 1 + 1 + 1 + 1 }

  store_cases :
      (a b : Bool) (s : SessionTokens) (v v' : World)
      → run
          ((if a then raise (database "P2002") else if b then raise (database "P2002") else ret tt)
            >>= λ _. ret s)
          (if a then v else if b then v else v')
        ≡ (if a
            then (err (database "P2002"), v)
            else if b
            then (err (database "P2002"), v)
            else (ok s, v'))
  store_cases true b s v v' = refl
  store_cases false true s v v' = refl
  store_cases false false s v v' = refl

  run-store_token :
      (s : SessionTokens) (t : RefreshToken) (v : World)
      → run (store_token t >>= λ _. ret s) v ≡ (
          if taken t v.refresh_tokens
          then (err (database "P2002"), v)
          else if id_taken t v.refresh_tokens
          then (err (database "P2002"), v)
          else (ok s, record v { refresh_tokens = v.refresh_tokens ++ t ∷ [] }))
  run-store_token s t v = store_cases (taken t v.refresh_tokens) (id_taken t v.refresh_tokens) s v _

  -- A session that is issued without other requests between its steps, on every branch: if the id and
  -- the jti of the new row are free, the row is stored at the end of the table, for seven days and with
  -- the hash of the refresh token, and the session is returned; else the answer is the database's
  -- error on a unique column and nothing is stored. Four random values are drawn.
  pub run-issue_session_tokens : run (issue_session_tokens pf user_id role_id role_name) w ≡ (
      if taken row_at w.refresh_tokens
      then (err (database "P2002"), drawn)
      else if id_taken row_at w.refresh_tokens
      then (err (database "P2002"), drawn)
      else (ok session_at, world_after))
  unfolding issue_session_tokens
  run-issue_session_tokens = run-store_token session_at row_at drawn

  pub issue_with_room :
      HasRoom
      → run (issue_session_tokens pf user_id role_id role_name) w ≡ (ok session_at, world_after)
  issue_with_room (a, b) = rw (run-issue_session_tokens, a, b)

  issue_cases :
      (a b : Bool) (v : World) {s : SessionTokens} {v' w' : World} {t : SessionTokens}
      → ◌≡◌ {A = Result SessionTokens × World}
          (if a
            then (err (database "P2002"), v)
            else if b
            then (err (database "P2002"), v)
            else (ok s, v'))
          (ok t, w')
      → (t ≡ s) × (w' ≡ v')
  issue_cases true b v e = absurd (err-ne-ok (ap (λ r. r.0) e))
  issue_cases false true v e = absurd (err-ne-ok (ap (λ r. r.0) e))
  issue_cases false false v e = (ok-eq (ap (λ r. r.0) (sym e)), ap (λ r. r.1) (sym e))

  -- A session that was issued is the one of the next draws, and its row was stored.
  pub issue_ok :
      {s : SessionTokens} {w' : World}
      → run (issue_session_tokens pf user_id role_id role_name) w ≡ (ok s, w')
      → (s ≡ session_at) × (w' ≡ world_after)
  issue_ok e =
      issue_cases (taken row_at w.refresh_tokens) (id_taken row_at w.refresh_tokens) drawn
        (sym run-issue_session_tokens ∙ e)
