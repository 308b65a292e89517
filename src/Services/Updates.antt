-- ===== src/Services/Updates.antt =====
-- external-services.service.ts: the update of one row, inside a run that succeeds.
use master_gateway_auth.Prelude.{
  String, Bool, true, false, not, Option, none, some, ◌≡◌, refl, ◌==◌, if◌then◌else◌, find,
  update_where,
}
use mathlib.Core.Option
use master_gateway_auth.Prog.{Prog, ok, run, guard, some_or, database, ◌>>=◌, ◌>>◌}
use master_gateway_auth.Db.{ExternalService, World}
use master_gateway_auth.Services.{key_clashes, update_service}

-- The table with the row changed.
abbrev pub with_service_changed : String → (ExternalService → ExternalService) → World → World
with_service_changed id f w = record w { services = update_where (λ s. s.id == id) f w.services }

module _ {B : Type 0} (id : String) (f : ExternalService → ExternalService)
    (k : ExternalService → Prog World B) where
  row_ok :
      (o : Option ExternalService) (s : World) {b : B} {s' : World}
      → run (some_or (database "P2025") (Option.map f o) >>= k) s ≡ (ok b, s')
      → (row : ExternalService) × (o ≡ some row) × (run (k (f row)) s ≡ (ok b, s'))
  row_ok none s e = cc
  row_ok (some row) s e = (row, refl, e)

  guarded_ok :
      (c : Bool) (o : Option ExternalService) (s t : World) {b : B} {s' : World}
      → run
          ((guard (not c) (database "P2002") >> some_or (database "P2025") (Option.map f o)) >>= k)
          (if c then s else t)
        ≡ (ok b, s')
      → (c ≡ false) × (row : ExternalService) × (o ≡ some row) × (run (k (f row)) t ≡ (ok b, s'))
  guarded_ok true o s t e = cc
  guarded_ok false o s t e = let (row, found, rest) = row_ok o t e in (refl, row, found, rest)

  pub update_service_ok :
      (s : World) {b : B} {s' : World}
      → run (update_service id f >>= k) s ≡ (ok b, s')
      → (key_clashes id f s.services ≡ false)
        × (row : ExternalService) × (find (λ x. x.id == id) s.services ≡ some row)
        × (run (k (f row)) (with_service_changed id f s) ≡ (ok b, s'))
  update_service_ok s e =
      guarded_ok (key_clashes id f s.services) (find (λ x. x.id == id) s.services) s
        (with_service_changed id f s) e
