-- ===== src/Roles/Links.antt =====
-- roles.service.ts: an assignment that is upserted or deactivated, in whichever of the four tables.
use master_gateway_auth.Prelude.{
  String, Bool, true, false, not, ◌&&◌, List, [], ◌∷◌, ◌++◌, ◌≡◌, refl, ap, inl, inr, arith, eq_iff,
  Bool-cases, any, select, update_where,
}
use master_gateway_auth.Db.{Estado, activo, inactivo, is_active, RoleLink}
use master_gateway_auth.Roles

-- The table has an active assignment of the target to the role.
abbrev pub is_linked : String → String → List RoleLink → Bool
is_linked role_id target_id ls =
    any (λ l. Roles.is_link role_id target_id l && is_active l.estado) ls

-- The other assignments of the table.
abbrev pub others : String → String → List RoleLink → List RoleLink
others role_id target_id ls = select (λ l. not (Roles.is_link role_id target_id l)) ls

module _ (role_id target_id actor : String) where
  others-set_estado :
      (e : Estado) (ls : List RoleLink)
      → others role_id target_id
          (update_where (Roles.is_link role_id target_id) (Roles.set_estado e actor) ls)
        ≡ others role_id target_id ls
  others-set_estado e [] = refl
  others-set_estado e (l ∷ ls) = elim (Bool-cases (Roles.is_link role_id target_id l)) [
    | inl hit ↦ rw (hit, hit) (others-set_estado e ls)
    | inr miss ↦ rw (miss, miss) (ap (λ rest. l ∷ rest) (others-set_estado e ls))
  ]

  own_link :
      (id : String)
      → Roles.is_link role_id target_id (Roles.new_link id role_id target_id actor) ≡ true
  own_link id = rw ((eq_iff role_id role_id).1 refl, (eq_iff target_id target_id).1 refl) refl

  others-append :
      (id : String) (ls : List RoleLink)
      → others role_id target_id (ls ++ Roles.new_link id role_id target_id actor ∷ [])
        ≡ others role_id target_id ls
  others-append id [] = rw (own_link id) refl
  others-append id (l ∷ ls) = elim (Bool-cases (Roles.is_link role_id target_id l)) [
    | inl hit ↦ rw hit (others-append id ls)
    | inr miss ↦ rw miss (ap (λ rest. l ∷ rest) (others-append id ls))
  ]

  linked-set_estado :
      (ls : List RoleLink)
      → any (Roles.is_link role_id target_id) ls ≡ true
      → is_linked role_id target_id
          (update_where (Roles.is_link role_id target_id) (Roles.set_estado activo actor) ls)
        ≡ true
  linked-set_estado [] h = cc
  linked-set_estado (l ∷ ls) h = elim (Bool-cases (Roles.is_link role_id target_id l)) [
    | inl hit ↦ rw (hit, hit) refl
    | inr miss ↦ rw (miss, miss) (linked-set_estado ls (rw miss at h))
  ]

  linked-append :
      (id : String) (ls : List RoleLink)
      → is_linked role_id target_id (ls ++ Roles.new_link id role_id target_id actor ∷ []) ≡ true
  linked-append id [] = rw (own_link id) refl
  linked-append id (l ∷ ls) = ground (arith, linked-append id ls)

  pub upsert-linked :
      (id : String) (ls : List RoleLink)
      → is_linked role_id target_id (Roles.upsert_link id role_id target_id actor ls) ≡ true
  unfolding Roles.upsert_link
  upsert-linked id ls = elim (Bool-cases (any (Roles.is_link role_id target_id) ls)) [
    | inl there ↦ rw there (linked-set_estado ls there)
    | inr absent ↦ rw absent (linked-append id ls)
  ]

  pub others-upsert :
      (id : String) (ls : List RoleLink)
      → others role_id target_id (Roles.upsert_link id role_id target_id actor ls)
        ≡ others role_id target_id ls
  unfolding Roles.upsert_link
  others-upsert id ls = elim (Bool-cases (any (Roles.is_link role_id target_id) ls)) [
    | inl there ↦ rw there (others-set_estado activo ls)
    | inr absent ↦ rw absent (others-append id ls)
  ]

  pub deactivate-linked :
      (ls : List RoleLink)
      → is_linked role_id target_id (Roles.deactivate_link role_id target_id actor ls) ≡ false
  unfolding Roles.deactivate_link
  deactivate-linked [] = refl
  deactivate-linked (l ∷ ls) = elim (Bool-cases (Roles.is_link role_id target_id l)) [
    | inl hit ↦ rw (hit, hit) (deactivate-linked ls)
    | inr miss ↦ rw (miss, miss) (deactivate-linked ls)
  ]

  pub others-deactivate :
      (ls : List RoleLink)
      → others role_id target_id (Roles.deactivate_link role_id target_id actor ls)
        ≡ others role_id target_id ls
  unfolding Roles.deactivate_link
  others-deactivate ls = others-set_estado inactivo ls
