-- ===== src/Roles/Effects.antt =====
-- roles.service.ts: what an operation that succeeds has done, and what it had checked.
mod Kinds
pub use Kinds.{
  Sets, Creates, Updates, Removes, Effect, links_changed, upserted, same_draws, deactivated,
}
use master_gateway_auth.Prelude.{ℕ}
use master_gateway_auth.Db.{RoleLink}
use master_gateway_auth.Platform.{Platform}
use master_gateway_auth.Roles
use master_gateway_auth.Roles.Links.{
  is_linked, others, upsert-linked, others-upsert, deactivate-linked, others-deactivate,
}
