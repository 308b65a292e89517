-- ===== src/Users/Pages.antt =====
-- `findAll` of the users: the pages hold all active users, each once, and none is too long.
use mathlib.Core.List.{Perm}
use master_gateway_auth.Prelude.{ℕ, zero, suc, ◌+◌, String, List, [], ◌++◌, select, IsDescending}
use master_gateway_auth.Prog.{Result, ok, err, run}
use master_gateway_auth.Db.{is_active, User, World}
use master_gateway_auth.Users.Reading.{UserView, Page, find_all}

-- The items of the answer for a page; an answer that is an error has none.
abbrev pub items_of : Result Page → List UserView
items_of (ok p) = p.items
items_of (err e) = []

module _ (created_at : String → ℕ) (w : World) where
  -- The items of the first pages, one page after the other.
  abbrev pub items_up_to : ℕ → ℕ → List UserView
  items_up_to limit zero = []
  items_up_to limit (suc n) =
      items_up_to limit n ++ items_of (run (find_all created_at (n + 1) limit) w).0

  -- The rows are those of the active users, each as often as the table has it, the newest first.
  pub record IsListing (rows : List User) : Type 0 where
    pub all_active : Perm rows (select (λ u. is_active u.estado) w.users)
    pub newest : IsDescending (λ u. created_at u.id) rows
