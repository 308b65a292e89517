-- ===== src/Services/Provision/Grants.antt =====
-- `provision`: the assignments that its loop over the roles adds, in closed form.
use master_gateway_auth.Prelude.{ℕ, ◌+◌, String, List, [], ◌∷◌, ◌++◌, ◌≡◌, ◌∙◌, ap}
use mathlib.Core.List.{append-nil, append_assoc}
use master_gateway_auth.Prog.{ok, run, database, ◌>>=◌}
use master_gateway_auth.Prog.Runs.{run-bind_ok, run-insert_ok}
use master_gateway_auth.Prog.Outcomes.{outcome-eq}
use master_gateway_auth.Db.{RoleLink, World}
use master_gateway_auth.Platform.{Platform}
use master_gateway_auth.Services.Provision

module _ (pf : Platform) (actor : String) where
  -- The assignments of menus to a role, and the number of the draw after them.
  abbrev pub menu_links : ℕ → String → List String → List RoleLink
  menu_links d role_id [] = []
  menu_links d role_id (m ∷ ms) =
      Provision.link_row (pf.uuid d) role_id m actor ∷ menu_links (d + 1) role_id ms

  abbrev pub after_links : ℕ → List String → ℕ
  after_links d [] = d
  after_links d (m ∷ ms) = after_links (d + 1) ms

  abbrev pub with_menu_links : String → List String → World → World
  with_menu_links role_id ms w = record w {
    role_menus = w.role_menus ++ menu_links w.draws role_id ms;
    draws = after_links w.draws ms;
  }

  abbrev link_stored : RoleLink → World → World
  link_stored l w = record w { role_menus = w.role_menus ++ l ∷ [] }

  abbrev module_link_stored : RoleLink → World → World
  module_link_stored l w = record w { role_modules = w.role_modules ++ l ∷ [] }

  abbrev drawn : World → World
  drawn w = record w { draws = w.draws + 1 }

  grant_menus_ok :
      (role_id : String) (ms : List String) (w : World) {u : Unit {0}} {w' : World}
      → run (Provision.grant_menus pf actor role_id ms) w ≡ (ok u, w')
      → w' ≡ with_menu_links role_id ms w
  grant_menus_ok role_id [] w e = (outcome-eq e).1 ∙ simp append-nil
  grant_menus_ok role_id (m ∷ ms) w e =
      let l = Provision.link_row (pf.uuid w.draws) role_id m actor in
      let (free, rest) =
        run-insert_ok (λ t. Provision.pair_used l t.role_menus) (link_stored l) (database "P2002")
          (λ _. Provision.grant_menus pf actor role_id ms) (drawn w) e in
      grant_menus_ok role_id ms (link_stored l (drawn w)) rest ∙ simp append_assoc

  -- The assignments of the module, and of the menus, to the roles.
  abbrev pub after_roles : ℕ → List String → List String → ℕ
  after_roles d ms [] = d
  after_roles d ms (r ∷ rs) = after_roles (after_links (d + 1) ms) ms rs

  abbrev pub role_module_links : ℕ → String → List String → List String → List RoleLink
  role_module_links d module_id ms [] = []
  role_module_links d module_id ms (r ∷ rs) =
      Provision.link_row (pf.uuid d) r module_id actor
      ∷ role_module_links (after_links (d + 1) ms) module_id ms rs

  abbrev pub role_menu_links : ℕ → List String → List String → List RoleLink
  role_menu_links d ms [] = []
  role_menu_links d ms (r ∷ rs) =
      menu_links (d + 1) r ms ++ role_menu_links (after_links (d + 1) ms) ms rs

  abbrev pub with_grants : String → List String → List String → World → World
  with_grants module_id ms rs w = record w {
    role_modules = w.role_modules ++ role_module_links w.draws module_id ms rs;
    role_menus = w.role_menus ++ role_menu_links w.draws ms rs;
    draws = after_roles w.draws ms rs;
  }

  pub grant_roles_ok :
      (module_id : String) (ms rs : List String) (w : World) {u : Unit {0}} {w' : World}
      → run (Provision.grant_roles pf actor module_id ms rs) w ≡ (ok u, w')
      → w' ≡ with_grants module_id ms rs w
  grant_roles_ok module_id ms [] w e = (outcome-eq e).1 ∙ simp append-nil
  grant_roles_ok module_id ms (r ∷ rs) w e =
      let l = Provision.link_row (pf.uuid w.draws) r module_id actor in
      let stored = module_link_stored l (drawn w) in
      let (free, e1) =
        run-insert_ok (λ t. Provision.pair_used l t.role_modules) (module_link_stored l)
          (database "P2002")
          (λ _. Provision.grant_menus pf actor r ms >>= λ _.
            Provision.grant_roles pf actor module_id ms rs)
          (drawn w) e in
      let (u', v, e2, e3) =
        run-bind_ok (Provision.grant_menus pf actor r ms)
          (λ _. Provision.grant_roles pf actor module_id ms rs) stored e1 in
      grant_roles_ok module_id ms rs v e3
      ∙ ap (with_grants module_id ms rs) (grant_menus_ok r ms stored e2)
      ∙ simp append_assoc
