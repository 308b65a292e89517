-- ===== src/Roles/Effects/Kinds.antt =====
-- roles.service.ts: the effects of the kinds of operations, and of a change of an assignment.
use master_gateway_auth.Prelude.{
  ℕ, ◌+◌, String, Bool, true, false, some, List, [], ◌∷◌, ◌++◌, ◌≡◌, refl, sym, ap, ◌==◌, any,
  update_where, subst,
}
use master_gateway_auth.Prog.{ok, run}
use master_gateway_auth.Prog.Runs.{run-guard_last}
use master_gateway_auth.Db.{Role, RoleLink, World}
use master_gateway_auth.Platform.{Platform}
use master_gateway_auth.Roles
use master_gateway_auth.Roles.Links.{
  is_linked, others, upsert-linked, others-upsert, deactivate-linked, others-deactivate,
}

-- The target's assignment to the role is active (`on`) or not, the other assignments of the table
-- are as they were, and the rest of the state too, but for the draws.
pub record Sets (on : Bool) (table : Roles.LinkTable) (role_id target_id : String) (w w' : World)
    : Type 0 where
  pub target : Role
  pub role_found : Roles.active_role w role_id ≡ some target
  pub target_found : Roles.target_is_active table w target_id ≡ true
  pub linked : is_linked role_id target_id (Roles.links table w') ≡ on
  pub kept :
      others role_id target_id (Roles.links table w')
      ≡ others role_id target_id (Roles.links table w)
  pub elsewhere : w' ≡ Roles.with_links table (Roles.links table w') (record w { draws = w'.draws })

pub record Creates (pf : Platform) (a : Roles.Actor) (dto : Roles.CreateRoleDto) (w w' : World)
    : Type 0 where
  pub free : Roles.name_taken w dto.name ≡ false
  pub rows : w'.roles ≡ w.roles ++ Roles.new_role (pf.uuid w.draws) dto a.id ∷ []
  pub elsewhere : w' ≡ record w { roles = w'.roles; draws = w.draws + 1 }

pub record Updates (a : Roles.Actor) (id : String) (dto : Roles.UpdateRoleDto) (w w' : World)
    : Type 0 where
  pub target : Role
  pub role_found : Roles.active_role w id ≡ some target
  pub free : any (Roles.renames_onto id dto) w.roles ≡ false
  pub after :
      w' ≡ record w { roles = update_where (λ r. r.id == id) (Roles.apply_update dto a.id) w.roles }

pub record Removes (a : Roles.Actor) (id : String) (w w' : World) : Type 0 where
  pub target : Role
  pub role_found : Roles.active_role w id ≡ some target
  pub unassigned : Roles.active_assignments id w ≡ 0
  pub after : w' ≡ Roles.deactivate_role id a.id w

abbrev pub Effect : Platform → Roles.Actor → Roles.Operation → World → World → Type 0
Effect pf a (Roles.create_role dto) w w' = Creates pf a dto w w'
Effect pf a (Roles.update_role id dto) w w' = Updates a id dto w w'
Effect pf a (Roles.remove_role id) w w' = Removes a id w w'
Effect pf a (Roles.give_user r u) w w' = Sets true Roles.user_table r u w w'
Effect pf a (Roles.take_user r u) w w' = Sets false Roles.user_table r u w w'
Effect pf a (Roles.give_module r m) w w' = Sets true Roles.module_table r m w w'
Effect pf a (Roles.take_module r m) w w' = Sets false Roles.module_table r m w w'
Effect pf a (Roles.give_menu r m) w w' = Sets true Roles.menu_table r m w w'
Effect pf a (Roles.take_menu r m) w w' = Sets false Roles.menu_table r m w w'
Effect pf a (Roles.give_permission r p) w w' = Sets true Roles.permission_table r p w w'
Effect pf a (Roles.take_permission r p) w w' = Sets false Roles.permission_table r p w w'

module _ (role_id target_id : String) (w w' : World) (target : Role)
    (role_found : Roles.active_role w role_id ≡ some target) where
  pub links_changed :
      (on : Bool) (table : Roles.LinkTable) (ls : List RoleLink) (n : ℕ)
      → Roles.target_is_active table w target_id ≡ true
      → w' ≡ Roles.with_links table ls (record w { draws = n })
      → is_linked role_id target_id ls ≡ on
      → others role_id target_id ls ≡ others role_id target_id (Roles.links table w)
      → Sets on table role_id target_id w w'
  links_changed on table ls n found e linked kept =
      subst (λ v. Sets on table role_id target_id w v) (sym e) (filled table found kept)
    where
      filled :
          (t : Roles.LinkTable)
          → Roles.target_is_active t w target_id ≡ true
          → others role_id target_id ls ≡ others role_id target_id (Roles.links t w)
          → Sets on t role_id target_id w (Roles.with_links t ls (record w { draws = n }))
      filled Roles.user_table f k = record {
        target = target;
        role_found = role_found;
        target_found = f;
        linked = linked;
        kept = k;
        elsewhere = refl;
      }
      filled Roles.module_table f k = record {
        target = target;
        role_found = role_found;
        target_found = f;
        linked = linked;
        kept = k;
        elsewhere = refl;
      }
      filled Roles.menu_table f k = record {
        target = target;
        role_found = role_found;
        target_found = f;
        linked = linked;
        kept = k;
        elsewhere = refl;
      }
      filled Roles.permission_table f k = record {
        target = target;
        role_found = role_found;
        target_found = f;
        linked = linked;
        kept = k;
        elsewhere = refl;
      }

  pub upserted :
      (pf : Platform) (actor : String) (table : Roles.LinkTable) {u : Unit {0}}
      → Roles.target_is_active table w target_id ≡ true
      → run (Roles.upsert pf table role_id target_id actor) w ≡ (ok u, w')
      → Sets true table role_id target_id w w'
  upserted pf actor table found e =
      links_changed true table _ (w.draws + 1) found (sym (ap (λ r. r.1) e))
        (upsert-linked role_id target_id actor (pf.uuid w.draws) (Roles.links table w))
        (others-upsert role_id target_id actor (pf.uuid w.draws) (Roles.links table w))

  pub same_draws :
      (table : Roles.LinkTable) (ls : List RoleLink)
      → Roles.with_links table ls w ≡ Roles.with_links table ls (record w { draws = w.draws })
  same_draws table ls = refl

  pub deactivated :
      (actor : String) (table : Roles.LinkTable) {u : Unit {0}}
      → Roles.target_is_active table w target_id ≡ true
      → run (Roles.deactivate table role_id target_id actor) w ≡ (ok u, w')
      → Sets false table role_id target_id w w'
  deactivated actor table found e =
      let (_, same) =
        run-guard_last (any (Roles.is_link role_id target_id) (Roles.links table w)) _ _ e in
      links_changed false table _ w.draws found same
        (deactivate-linked role_id target_id actor (Roles.links table w))
        (others-deactivate role_id target_id actor (Roles.links table w))
