-- ===== src/Roles/Protected/Views.antt =====
-- roles.service.ts: the view of the protected roles, and the steps that leave it alone.
use master_gateway_auth.Prelude.{
  ℕ, ◌≤◌, String, Bool, true, false, Option, none, some, List, ◌≡◌, refl, sym, ◌∙◌, ap, subst, inl,
  inr, arith, ◌==◌, eq_iff, Bool-cases, select, any, count_where, update_where, none_both,
  select-update_where, select-concat,
}
use master_gateway_auth.Prog.{Prog, atomic, run, guard, some_or, Failure, ◌>>=◌}
use master_gateway_auth.Db.{Estado, Role, RoleLink, World, activo, inactivo}
use master_gateway_auth.Roles

-- The protected roles, and the assignments of protected roles in a table.
abbrev pub is_protected : Role → Bool
is_protected r = Roles.is_protected_super_admin_role r.name

abbrev pub among : List Role → String → Bool
among rs id = any (λ r. r.id == id) rs

abbrev pub links_among : List Role → List RoleLink → List RoleLink
links_among rs ls = select (λ l. among rs l.role_id) ls

pub record View : Type 0 where
  pub roles : List Role
  pub users : List RoleLink
  pub modules : List RoleLink
  pub menus : List RoleLink
  pub permissions : List RoleLink

abbrev pub view_with : List Role → World → View
view_with rs w = record {
  roles = rs;
  users = links_among rs w.user_roles;
  modules = links_among rs w.role_modules;
  menus = links_among rs w.role_menus;
  permissions = links_among rs w.role_permissions;
}

-- All that the database says of the protected roles.
abbrev pub protected_view : World → View
protected_view w = view_with (select is_protected w.roles) w

-- Ids are the primary key.
abbrev pub HasUniqueRoles : World → Type 0
HasUniqueRoles w = (id : String) → count_where (λ r. r.id == id) w.roles ≤ 1

-- The program leaves the protected roles alone when it runs at `w`.
abbrev pub Spares : {A : Type 0} → Prog World A → World → Type 0
Spares p w = protected_view (run p w).1 ≡ protected_view w

pub Spares-guard :
    {B : Type 0} (b : Bool) (e : Failure) (p : Prog World B) (w : World)
    → (b ≡ true → Spares p w)
    → Spares (guard b e >>= λ _. p) w
Spares-guard true e p w h = h refl
Spares-guard false e p w h = refl

pub Spares-guard_last : (b : Bool) (e : Failure) (w : World) → (run (guard b e) w).1 ≡ w
Spares-guard_last true e w = refl
Spares-guard_last false e w = refl

-- A write whose unique or missing key the database reports afterwards.
pub Spares-write :
    (f : World → World) (t : World → Bool) (e : Failure) (w : World)
    → protected_view (f w) ≡ protected_view w
    → Spares (atomic f (λ v. guard (t v) e)) w
Spares-write f t e w h = ap protected_view (Spares-guard_last (t w) e (f w)) ∙ h

pub Spares-some_or :
    {A B : Type 0} (e : Failure) (o : Option A) (k : A → Prog World B) (w : World)
    → ((x : A) → o ≡ some x → Spares (k x) w)
    → Spares (some_or e o >>= k) w
Spares-some_or e none k w h = refl
Spares-some_or e (some x) k w h = h x refl

-- Roles change, but not the protected ones.
pub view-roles :
    (w w' : World)
    → select is_protected w'.roles ≡ select is_protected w.roles
    → view_with (select is_protected w'.roles) w ≡ protected_view w
view-roles w w' e = ap (λ rs. view_with rs w) e

pub is_link-role :
    (role_id target_id : String) (l : RoleLink)
    → Roles.is_link role_id target_id l ≡ true
    → l.role_id ≡ role_id
is_link-role role_id target_id l h = (eq_iff l.role_id role_id).0 (ground arith)

module _ (rs : List Role) (role_id target_id actor : String) (free : among rs role_id ≡ false) where
  pub link_free :
      (l : RoleLink) → Roles.is_link role_id target_id l ≡ true → among rs l.role_id ≡ false
  link_free l hit =
      subst (λ i. among rs i ≡ false) (sym (is_link-role role_id target_id l hit)) free

  pub links-set_estado :
      (e : Estado) (ls : List RoleLink)
      → links_among rs
          (update_where (Roles.is_link role_id target_id) (Roles.set_estado e actor) ls)
        ≡ links_among rs ls
  links-set_estado e ls =
      select-update_where (Roles.is_link role_id target_id) (λ l. among rs l.role_id)
        (Roles.set_estado e actor) ls (λ l hit out. out)
        (none_both (Roles.is_link role_id target_id) (λ l. among rs l.role_id)
          (Roles.set_estado e actor) ls link_free)

  pub links-upsert :
      (id : String) (ls : List RoleLink)
      → links_among rs (Roles.upsert_link id role_id target_id actor ls) ≡ links_among rs ls
  unfolding Roles.upsert_link
  links-upsert id ls = elim (Bool-cases (any (Roles.is_link role_id target_id) ls)) [
    | inl there ↦ rw there (links-set_estado activo ls)
    | inr absent ↦ rw absent (
        select-concat (λ l. among rs l.role_id) ls (Roles.new_link id role_id target_id actor) free)
  ]

  pub links-deactivate :
      (ls : List RoleLink)
      → links_among rs (Roles.deactivate_link role_id target_id actor ls) ≡ links_among rs ls
  unfolding Roles.deactivate_link
  links-deactivate ls = links-set_estado inactivo ls

-- A table is changed for a role that is not protected.
pub view-with_links :
    (table : Roles.LinkTable) (w : World) (n : ℕ) (ls : List RoleLink)
    → links_among (select is_protected w.roles) ls
      ≡ links_among (select is_protected w.roles) (Roles.links table w)
    → protected_view (Roles.with_links table ls (record w { draws = n })) ≡ protected_view w
view-with_links Roles.user_table w n ls e = ap (λ l. record (protected_view w) { users = l }) e
view-with_links Roles.module_table w n ls e = ap (λ l. record (protected_view w) { modules = l }) e
view-with_links Roles.menu_table w n ls e = ap (λ l. record (protected_view w) { menus = l }) e
view-with_links Roles.permission_table w n ls e =
    ap (λ l. record (protected_view w) { permissions = l }) e
