-- ===== src/Modules/Removal.antt =====
-- modules.service.ts: the removal of a module takes its menus, their assignments and their routes
-- along, and the assignments of the module.
use master_gateway_auth.Prelude.{
  String, Bool, false, not, ◌&&◌, List, [], ◌∷◌, ◌≡◌, refl, sym, ◌∙◌, ap, subst, inl, inr, arith,
  ◌==◌, any, select, update_where, any-update_none, others_kept, includes, Bool-cases,
}
use master_gateway_auth.Prog.{ok, run}
use master_gateway_auth.Prog.Runs.{run-bind_ok, run-some_or_ok, run-guard_last, run-transaction_ok}
use master_gateway_auth.Db.{is_active, SystemModule, World}
use master_gateway_auth.Modules

abbrev pub menus_retired : List String → String → World → World
menus_retired ids actor w = record w {
  role_menus = update_where (Modules.link_among ids) (Modules.retire_link actor) w.role_menus;
  service_routes =
      update_where (Modules.route_among ids) (Modules.retire_route actor) w.service_routes;
}

-- The state after the removal.
abbrev pub removed : String → String → World → World
removed id actor w = record (menus_retired (Modules.menu_ids id w) actor w) {
  menus = update_where (Modules.menu_in id) (Modules.retire_menu actor) w.menus;
  role_modules = update_where (Modules.link_of id) (Modules.retire_link actor) w.role_modules;
  modules = update_where (λ m. m.id == id) (Modules.retire_module actor) w.modules;
}

untouched :
    {A : Type 0} (p : A → Bool) (f : A → A) (xs : List A)
    → ((x : A) → p x ≡ false)
    → update_where p f xs ≡ xs
untouched p f [] h = refl
untouched p f (x ∷ xs) h = rw (h x, untouched p f xs h) refl

-- Without menus, the two updates that are left out would change nothing.
run-retire_for_menus :
    (ids : List String) (actor : String) (w : World)
    → run (Modules.retire_for_menus ids actor) w ≡ (ok tt, menus_retired ids actor w)
run-retire_for_menus [] actor w =
    ap (λ x. (ok tt, x))
      (ap (λ ls. record w { role_menus = ls })
          (sym (
            untouched (Modules.link_among []) (Modules.retire_link actor) w.role_menus (λ l. refl)))
        ∙ ap (λ rs. record (menus_retired [] actor w) { service_routes = rs })
            (sym (
              untouched (Modules.route_among []) (Modules.retire_route actor) w.service_routes
                (λ r. refl))))
run-retire_for_menus (i ∷ is) actor w = refl

pub remove_ok :
    (id actor : String) (w w' : World)
    → run (Modules.remove id actor) w ≡ (ok tt, w')
    → w' ≡ removed id actor w
unfolding Modules.remove
remove_ok id actor w w' e =
    let (m, found, e1) = run-some_or_ok _ (Modules.active_module w id) _ w e in
    let e2 = run-transaction_ok (Modules.removal id actor) w e1 in
    let (u, v, first, e3) =
      run-bind_ok (Modules.retire_for_menus (Modules.menu_ids id w) actor) _ w e2 in
    let there : v ≡ menus_retired (Modules.menu_ids id w) actor w =
      ap (λ r. r.1) (sym first ∙ run-retire_for_menus (Modules.menu_ids id w) actor w) in
    let (b, same) = run-guard_last (any (λ x. x.id == id) v.modules) _ (last_steps v) e3 in
    same ∙ ap last_steps there
  where
    last_steps : World → World
    last_steps v = record v {
      menus = update_where (Modules.menu_in id) (Modules.retire_menu actor) v.menus;
      role_modules = update_where (Modules.link_of id) (Modules.retire_link actor) v.role_modules;
      modules = update_where (λ x. x.id == id) (Modules.retire_module actor) v.modules;
    }

modules_inactive :
    (id actor : String) (ms : List SystemModule)
    → any
        (λ m. m.id == id && is_active m.estado)
        (update_where (λ m. m.id == id) (Modules.retire_module actor) ms)
      ≡ false
modules_inactive id actor [] = refl
modules_inactive id actor (m ∷ ms) = elim (Bool-cases (m.id == id)) [
  | inl hit ↦ rw (hit, hit) (modules_inactive id actor ms)
  | inr miss ↦ rw (miss, miss) (modules_inactive id actor ms)
]

-- The module, its menus, the assignments and the routes of these menus, and the assignments of the
-- module are inactive; all other modules, menus, assignments and routes are as they were.
pub record IsRemoved (id : String) (w w' : World) : Type 0 where
  pub no_module : any (λ m. m.id == id && is_active m.estado) w'.modules ≡ false
  pub no_menu : any (Modules.menu_in id) w'.menus ≡ false
  pub no_menu_link : any (Modules.link_among (Modules.menu_ids id w)) w'.role_menus ≡ false
  pub no_route : any (Modules.route_among (Modules.menu_ids id w)) w'.service_routes ≡ false
  pub no_module_link : any (Modules.link_of id) w'.role_modules ≡ false
  pub other_modules :
      select (λ m. not (m.id == id)) w'.modules ≡ select (λ m. not (m.id == id)) w.modules
  pub other_menus :
      select (λ m. not (m.module_id == id)) w'.menus ≡ select (λ m. not (m.module_id == id)) w.menus
  pub other_menu_links :
      select (λ l. not (includes l.target_id (Modules.menu_ids id w))) w'.role_menus
      ≡ select (λ l. not (includes l.target_id (Modules.menu_ids id w))) w.role_menus
  pub other_routes :
      select (λ r. not (includes r.menu_id (Modules.menu_ids id w))) w'.service_routes
      ≡ select (λ r. not (includes r.menu_id (Modules.menu_ids id w))) w.service_routes
  pub other_module_links :
      select (λ l. not (l.target_id == id)) w'.role_modules
      ≡ select (λ l. not (l.target_id == id)) w.role_modules

-- After a module was removed, the module, its menus, the assignments and the proxy routes of those
-- menus, and the assignments of the module are inactive; the other modules, menus, assignments and
-- routes are as they were.
pub module-IsRemoved :
    (id actor : String) (w w' : World)
    → run (Modules.remove id actor) w ≡ (ok tt, w')
    → IsRemoved id w w'
module-IsRemoved id actor w w' e =
    let ids = Modules.menu_ids id w in
    subst (λ v. IsRemoved id w v) (sym (remove_ok id actor w w' e))
      (record {
        no_module = modules_inactive id actor w.modules;
        no_menu =
            any-update_none (Modules.menu_in id) (Modules.retire_menu actor) w.menus
              (λ m h. ground arith);
        no_menu_link =
            any-update_none (Modules.link_among ids) (Modules.retire_link actor) w.role_menus
              (λ l h. ground arith);
        no_route =
            any-update_none (Modules.route_among ids) (Modules.retire_route actor) w.service_routes
              (λ r h. ground arith);
        no_module_link =
            any-update_none (Modules.link_of id) (Modules.retire_link actor) w.role_modules
              (λ l h. ground arith);
        other_modules =
            others_kept (λ m. m.id == id) (λ m. m.id == id) (Modules.retire_module actor) w.modules
              (λ m h. h) (λ m. refl);
        other_menus =
            others_kept (λ m. m.module_id == id) (Modules.menu_in id) (Modules.retire_menu actor)
              w.menus (λ m h. ground arith) (λ m. refl);
        other_menu_links =
            others_kept (λ l. includes l.target_id ids) (Modules.link_among ids)
              (Modules.retire_link actor) w.role_menus (λ l h. ground arith) (λ l. refl);
        other_routes =
            others_kept (λ r. includes r.menu_id ids) (Modules.route_among ids)
              (Modules.retire_route actor) w.service_routes (λ r h. ground arith) (λ r. refl);
        other_module_links =
            others_kept (λ l. l.target_id == id) (Modules.link_of id) (Modules.retire_link actor)
              w.role_modules (λ l h. ground arith) (λ l. refl);
      })
