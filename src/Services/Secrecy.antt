-- ===== src/Services/Secrecy.antt =====
-- `findAll` and `findOne`: the keys of the services do not show in the answers.
use master_gateway_auth.Prelude.{
  String, ◌&&◌, Option, none, some, List, [], ◌∷◌, ◌≡◌, refl, ◌∙◌, ap, inl, inr, ◌==◌, Bool-cases,
  map, find, select, has_text, truthy,
}
use mathlib.Core.Option
use master_gateway_auth.Prog.{Result, ok, run, some_or, not_found, ret, ◌>>=◌}
use master_gateway_auth.Db.{is_active, ExternalService, World}
use master_gateway_auth.Services.{
  PublicService, omit_api_key, is_listed, find_all, find_one, active_by_id,
}

-- What `findOne` does with the row that was found.
abbrev answer : Option ExternalService → World → Result PublicService × World
answer o =
    run (some_or (not_found "Servicio externo no encontrado") o >>= λ s. ret (omit_api_key s))

module _ (other : String → String) where
  -- The same rows with other keys.
  abbrev pub rekeyed : ExternalService → ExternalService
  rekeyed s = record s { api_key = Option.map other s.api_key }

  abbrev pub with_other_keys : World → World
  with_other_keys w = record w { services = map rekeyed w.services }

  module _ (kept : (k : String) → truthy (other k) ≡ truthy k) where
    has_key : (o : Option String) → has_text (Option.map other o) ≡ has_text o
    has_key none = refl
    has_key (some k) = kept k

    omit-rekeyed : (s : ExternalService) → omit_api_key (rekeyed s) ≡ omit_api_key s
    unfolding omit_api_key
    omit-rekeyed s = rw (has_key s.api_key) refl

    listed-rekeyed :
        (ss : List ExternalService)
        → map omit_api_key (select is_listed (map rekeyed ss))
          ≡ map omit_api_key (select is_listed ss)
    listed-rekeyed [] = refl
    listed-rekeyed (s ∷ ss) = elim (Bool-cases (is_listed s)) [
      | inl shown ↦ rw (shown, omit-rekeyed s, listed-rekeyed ss) refl
      | inr hidden ↦ rw hidden (listed-rekeyed ss)
    ]

    found-rekeyed :
        (id : String) (ss : List ExternalService)
        → find (λ s. s.id == id && is_active s.estado) (map rekeyed ss)
          ≡ Option.map rekeyed (find (λ s. s.id == id && is_active s.estado) ss)
    found-rekeyed id [] = refl
    found-rekeyed id (s ∷ ss) = elim (Bool-cases (s.id == id && is_active s.estado)) [
      | inl hit ↦ rw hit refl
      | inr miss ↦ rw miss (found-rekeyed id ss)
    ]

    answered-rekeyed :
        (o : Option ExternalService) (w v : World)
        → (answer (Option.map rekeyed o) v).0 ≡ (answer o w).0
    answered-rekeyed none w v = refl
    answered-rekeyed (some s) w v = ap ok (omit-rekeyed s)

    -- The list of services and the answer for one service are the same, whatever the keys of the
    -- services are: only whether there is one shows.
    pub reads_hide_keys :
        (id : String) (w : World)
        → ((run find_all (with_other_keys w)).0 ≡ (run find_all w).0)
          × ((run (find_one id) (with_other_keys w)).0 ≡ (run (find_one id) w).0)
    unfolding find_all find_one
    reads_hide_keys id w = (
      ap ok (listed-rekeyed w.services),
      ap (λ o. (answer o (with_other_keys w)).0) (found-rekeyed id w.services)
          ∙ answered-rekeyed (active_by_id w id) w (with_other_keys w),
    )
