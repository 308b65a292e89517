-- ===== src/Users/Reading.antt =====
-- users.service.ts: `findAll` and `findOne`. The column `createdAt`, which only the database writes and
-- only this order reads, is a parameter: the time of creation by the id of the row.
use master_gateway_auth.Prelude.{
  ℕ, ◌-◌, ◌*◌, String, Bool, true, ◌&&◌, none, some, List, [], ◌∷◌, ◌==◌, if◌then◌else◌, map,
  select, count_where, take, drop, sort_by, greater, leb, eqb, ◌||◌,
}
use master_gateway_auth.Prog.{Prog, query, guard, thrown, ◌>>=◌, ◌>>◌}
use master_gateway_auth.Db.{is_active, User, Role, RoleLink, World, role_by_id}
use master_gateway_auth.Auth.Login.{SafeUser, omit_password}
use master_gateway_auth.Users.{ensure_active}

-- A user without the hash, with the assignments that are read along and their roles.
pub record UserView : Type 0 where
  pub user : SafeUser
  pub roles : List (RoleLink × Role)

pub record Page : Type 0 where
  pub items : List UserView
  pub total : ℕ
  pub page : ℕ
  pub limit : ℕ

-- The active assignments of a user; the test on the role is that of the query.
abbrev pub roles_of : (Role → Bool) → World → String → List RoleLink → List (RoleLink × Role)
roles_of test w id [] = []
roles_of test w id (l ∷ ls) =
    let rest = roles_of test w id ls in
    if l.target_id == id && is_active l.estado
    then elim (role_by_id w l.role_id) [
      | none ↦ rest
      | some r ↦ if test r then (l, r) ∷ rest else rest
    ]
    else rest

abbrev pub any_role : Role → Bool
any_role r = true

abbrev pub active_role : Role → Bool
active_role r = is_active r.estado

abbrev pub view : (Role → Bool) → World → User → UserView
view test w u = record { user = omit_password u; roles = roles_of test w u.id w.user_roles }

module _ (created_at : String → ℕ) where
  -- `where: { estado: ACTIVO }`, `orderBy: { createdAt: 'desc' }`. Rows that were created at the same
  -- time stand in the order of the table, which is one that the database may choose.
  abbrev pub newest_first : World → List User
  newest_first w =
      sort_by (greater (λ u. created_at u.id)) (select (λ u. is_active u.estado) w.users)

  abbrev pub page_at : ℕ → ℕ → World → Page
  page_at page limit w = record {
    items = map (view active_role w) (take limit (drop ((page - 1) * limit) (newest_first w)));
    total = count_where (λ u. is_active u.estado) w.users;
    page = page;
    limit = limit;
  }

  -- `skip` is `(page - 1) * limit`, which the database's client refuses where it is negative.
  unfoldable pub find_all : ℕ → ℕ → Prog World Page
  find_all page limit =
      guard (leb 1 page || eqb limit 0) (thrown "PrismaClientValidationError")
      >> query (page_at page limit)

unfoldable pub find_one : String → Prog World UserView
find_one id = ensure_active id >>= λ u. query (λ w. view any_role w u)
