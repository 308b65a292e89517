-- ===== src/Services/Provision/Refusal.antt =====
-- `provision`: the runs that fail.
use master_gateway_auth.Prelude.{
  String, true, not, some, ◌≡◌, refl, ◌∙◌, ap, ◌⊎◌, inl, inr, length, eqb, truthy,
}
use master_gateway_auth.Prog.{Prog, Result, ok, err, run, transaction, after, lift, conflict}
use master_gateway_auth.Prog.Outcomes.{outcome-some_or, outcome-guard, passes-some_or}
use master_gateway_auth.Db.{ExternalService, World}
use master_gateway_auth.Platform.{Platform}
use master_gateway_auth.Modules
use master_gateway_auth.Modules.Removal.{remove_ok}
use master_gateway_auth.Services.{active_by_id}
use master_gateway_auth.Services.Provision

abbrev pub IsAtomic : {A : Type 0} → World → Result A × World → Type 0
IsAtomic {A} w x = ((a : A) × (x.0 ≡ ok a)) ⊎ (x.1 ≡ w)

transaction-IsAtomic :
    {A : Type 0} (p : Prog World A) (w : World) → IsAtomic w (run (transaction p) w)
transaction-IsAtomic {A} p w = body (run p w)
  where
    body : (r : Result A × World) → IsAtomic w (run (lift r.0) (after r w))
    body (ok a, t) = inl (a, refl)
    body (err e, t) = inr refl

module _ (pf : Platform) (actor : String) where
  -- A provisioning either succeeds or leaves everything as it was.
  pub provision-IsAtomic :
      (id : String) (dto : Provision.ProvisionServiceDto) (w : World)
      → IsAtomic w (run (Provision.provision pf actor id dto) w)
  unfolding Provision.provision
  provision-IsAtomic id dto w =
      let P = IsAtomic {A = Provision.Provisioned} w in
      outcome-some_or P _ (active_by_id w id) _ w (inr refl) λ s found.
        outcome-guard P (not (Provision.is_provisioned s)) _ _ w (inr refl) λ first.
          outcome-guard P
            (eqb (length (Provision.active_roles w dto.role_ids)) (length dto.role_ids)) _ _ w
            (inr refl)
            λ roles. outcome-guard P (not (Provision.code_used w s.code)) _ _ w (inr refl) λ free.
              transaction-IsAtomic
                (Provision.provisioning pf actor s id (Provision.active_roles w dto.role_ids)
                  dto.items)
                w

  provision_again :
      (id : String) (dto : Provision.ProvisionServiceDto) (w : World) {s : ExternalService}
      {m : String}
      → active_by_id w id ≡ some s
      → s.module_id ≡ some m
      → truthy m ≡ true
      → run (Provision.provision pf actor id dto) w ≡ (
        err (
            conflict
              "El servicio ya fue aprovisionado. Elimina el modulo antes de volver a generarlo."),
        w,
      )
  unfolding Provision.provision
  provision_again id dto w {s} {m} found linked said =
      passes-some_or _ (active_by_id w id) _ w found ∙ rw (linked, said) refl

  -- After the module of a service was removed, as the answer asks for, the service is still
  -- refused, with that same answer: the service keeps its reference to the module.
  pub removed-provision_refused :
      (id module_id remover : String) (dto : Provision.ProvisionServiceDto) (w w' : World)
      (s : ExternalService)
      → active_by_id w id ≡ some s
      → s.module_id ≡ some module_id
      → truthy module_id ≡ true
      → run (Modules.remove module_id remover) w ≡ (ok tt, w')
      → run (Provision.provision pf actor id dto) w' ≡ (
        err (
            conflict
              "El servicio ya fue aprovisionado. Elimina el modulo antes de volver a generarlo."),
        w',
      )
  removed-provision_refused id module_id remover dto w w' s found linked said removal =
      let same = remove_ok module_id remover w w' removal in
      let found' : active_by_id w' id ≡ some s = ap (λ x. active_by_id x id) same ∙ found in
      provision_again id dto w' found' linked said
