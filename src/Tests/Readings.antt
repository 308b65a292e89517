-- ===== src/Tests/Readings.antt =====
-- The reads, the environment and the cleaning of texts, at concrete inputs.
use mathlib.Core.Option
use master_gateway_auth.Prelude.{
  String, Bool, true, false, none, some, [], ◌∷◌, ◌≡◌, refl, entry, keep, map, select, ℕ,
  if◌then◌else◌, ◌==◌,
}
use master_gateway_auth.Prog.{ok, err, run, thrown}
use master_gateway_auth.Db.{activo, inactivo, Menu, World}
use master_gateway_auth.Text.{trim, trim_start, trim_end, keep_from, starts_with, to_lower}
use master_gateway_auth.Menus.Tree
use master_gateway_auth.Menus.Tree.Granted.{ShowsGranted, tree_for_role-ShowsGranted}
use master_gateway_auth.Menus.Tree.Built.{
  child_of, root_of, ids_of, with_children, with_menus, node_of_row, last_row, module_of_rows,
  rows_read, in_order, tree_for_role-eq,
}
use master_gateway_auth.Users.Reading.{find_all, view, active_role}
use master_gateway_auth.Users.Pages.{items_of}
use master_gateway_auth.Config
use master_gateway_auth.Config.Production.{IsSafe, production-IsSafe}
use master_gateway_auth.Cleaning.{
  sanitize_string, strip_tags, replace_control_characters, collapse_spaces,
}
use master_gateway_auth.Cleaning.Tags.{no_tag, no_tag-sanitize_string}
use master_gateway_auth.Tests.State.{world, link, user}
use master_gateway_auth.Tests.Gateway.{shop_world, orders_menu}

-- The orders with a menu below them, of which the role was given only the first and its child.
abbrev below : String → Menu
below id = record orders_menu { id = id; name = id; parent_id = some "n1" }

abbrev wide_world : World
wide_world = record shop_world {
  menus = below "n2" ∷ orders_menu ∷ below "n3" ∷ [];
  role_menus = link "g1" "r2" "n1" ∷ link "g3" "r2" "n2" ∷ [];
}

abbrev by_name : String → String → Bool
by_name a b = false

abbrev clerk_tree : Tree.Tree
clerk_tree = record {
  modules = ("m1", record { id = "m1"; code = "SHOP"; name = "Shop"; menus = "n1" ∷ [] }) ∷ [];
  nodes =
      ("n1", record (Tree.node_of orders_menu) { children = "n2" ∷ [] })
      ∷ ("n2", Tree.node_of (below "n2"))
      ∷ [];
}

tree-run :
    run (Tree.tree_for_role by_name "r2" (some "CLERK")) wide_world ≡ (ok clerk_tree, wide_world)
unfolding Tree.tree_for_role
tree-run = refl

tree_for_role-ShowsGranted_example : ShowsGranted wide_world "r2" clerk_tree
tree_for_role-ShowsGranted_example =
    tree_for_role-ShowsGranted by_name "r2" (some "CLERK") wide_world wide_world clerk_tree refl
      tree-run

tree_for_role-eq_example :
    (entry "n1" clerk_tree.nodes
      ≡ Option.map
          (with_children
            (ids_of (select (child_of "n1") (in_order by_name wide_world "r2" (some "CLERK")))))
          (node_of_row (last_row "n1" (rows_read by_name wide_world "r2" (some "CLERK")))))
    × (entry "n1" clerk_tree.modules
        ≡ keep Tree.has_menus (
            Option.map
              (with_menus
                (ids_of (select (root_of "n1") (in_order by_name wide_world "r2" (some "CLERK")))))
              (module_of_rows "n1" (rows_read by_name wide_world "r2" (some "CLERK")) none)))
tree_for_role-eq_example =
    tree_for_role-eq by_name wide_world "r2" (some "CLERK") "n1" clerk_tree wide_world tree-run

-- Three users, of whom the last two are active, the last one the older.
abbrev staff : World
staff = record world { users = user "u2" inactivo ∷ user "u3" activo ∷ user "u1" activo ∷ [] }

abbrev by_age : String → ℕ
by_age id = if id == "u3" then 5 else 3

-- The second page has the older of the two active users.
second_page_test :
    items_of (run (find_all by_age 2 1) staff).0 ≡ view active_role staff (user "u1" activo) ∷ []
unfolding find_all
second_page_test = refl

no_page_test : run (find_all by_age 0 1) staff ≡ (err (thrown "PrismaClientValidationError"), staff)
unfolding find_all
no_page_test = refl

-- An environment that starts in production.
abbrev production : Config.Env
production =
    ("NODE_ENV", Config.text "production")
    ∷ ("DATABASE_URL", Config.text "postgresql://db")
    ∷ ("INTERNAL_API_KEY", Config.text "long and secret")
    ∷ ("FRONTEND_ORIGIN", Config.text "https://example.org")
    ∷ []

abbrev started : Config.Env
started = Config.next_env true "production" production

production-run : Config.validate_env production ≡ ok started
unfolding Config.validate_env Config.given_text Config.is_weak trim trim_start trim_end keep_from
    starts_with to_lower
production-run = refl

production-IsSafe_example : IsSafe production started
production-IsSafe_example = production-IsSafe production started refl production-run

no_tag-sanitize_string_example : no_tag (sanitize_string "<<b>i>  x > <") ≡ true
no_tag-sanitize_string_example = no_tag-sanitize_string "<<b>i>  x > <"

cleaned_test : sanitize_string " a\t<script>b</script>\n c <" ≡ "a b c <"
unfolding sanitize_string strip_tags replace_control_characters collapse_spaces trim trim_start
    trim_end keep_from
cleaned_test = refl
