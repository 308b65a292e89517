-- ===== src/Auth/Session/Permissions.antt =====
-- auth.service.ts: the permissions that a session carries.
use master_gateway_auth.Prelude.{
  String, Bool, ◌&&◌, ◌||◌, List, [], ◌∷◌, ◌++◌, ◌≡◌, refl, inl, inr, ◌∙◌, arith, ap, ◌==◌,
  Bool-cases, select, any, includes,
}
use master_gateway_auth.Db.{is_active, Permission, RoleLink, World}
use master_gateway_auth.Auth.Session.{text_le, insert_text, sort, code_of, codes_of, permissions_in}

-- The role has the code: an active assignment of the role leads to an active permission with it.
abbrev pub has_code : String → Permission → Bool
has_code c p = is_active p.estado && c == p.code

abbrev pub is_granted : World → String → String → Bool
is_granted w role_id c =
    any
      (λ l.
        l.role_id == role_id
        && is_active l.estado
        && any (λ p. p.id == l.target_id && has_code c p) w.permissions)
      w.role_permissions

includes-append :
    (c : String) (xs ys : List String) → includes c (xs ++ ys) ≡ (includes c xs || includes c ys)
includes-append c [] ys = refl
includes-append c (x ∷ xs) ys = ground (arith, includes-append c xs ys)

includes-insert_text :
    (c s : String) (ts : List String) → includes c (insert_text s ts) ≡ (c == s || includes c ts)
unfolding insert_text
includes-insert_text c s [] = refl
includes-insert_text c s (t ∷ ts) = elim (Bool-cases (text_le s t)) [
  | inl le ↦ rw le
  | inr gt ↦ rw gt (ground (arith, includes-insert_text c s ts))
]

-- Sorting keeps what is in the list.
pub includes-sort : (c : String) (ts : List String) → includes c (sort ts) ≡ includes c ts
unfolding sort
includes-sort c [] = refl
includes-sort c (t ∷ ts) =
    includes-insert_text c t (sort ts) ∙ ap (λ b. c == t || b) (includes-sort c ts)

includes-code_of :
    (c : String) (ps : List Permission) (l : RoleLink)
    → includes c (code_of ps l) ≡ any (λ p. p.id == l.target_id && has_code c p) ps
includes-code_of c [] l = refl
includes-code_of c (p ∷ ps) l = ground (arith, includes-code_of c ps l)

includes-codes_of :
    (role_id c : String) (ps : List Permission) (ls : List RoleLink)
    → includes c (codes_of ps (select (λ l. l.role_id == role_id && is_active l.estado) ls))
      ≡ any
          (λ l.
            l.role_id == role_id
            && is_active l.estado
            && any (λ p. p.id == l.target_id && has_code c p) ps)
          ls
includes-codes_of role_id c ps [] = refl
includes-codes_of role_id c ps (l ∷ ls) =
    elim (Bool-cases (l.role_id == role_id && is_active l.estado)) [
      | inl hit ↦ rw hit (
          rw (includes-append, includes-code_of c ps l, includes-codes_of role_id c ps ls)
            (ground arith))
      | inr miss ↦ rw miss (rw (includes-codes_of role_id c ps ls) (ground arith))
    ]

-- Least privilege: a code is among the permissions of a session for a role exactly when an active
-- assignment of that role leads to an active permission with the code.
pub permissions_in-eq-is_granted :
    (w : World) (role_id c : String)
    → includes c (permissions_in w role_id) ≡ is_granted w role_id c
unfolding permissions_in
permissions_in-eq-is_granted w role_id c =
    includes-sort c _ ∙ includes-codes_of role_id c w.permissions w.role_permissions
