-- ===== src/Plan/Policy.antt =====
-- plan/policy.go.
use external_dns.Prelude.{List, [], ◌∷◌}
use external_dns.Plan.Types.{Changes}

pub data Policy : Type 0 where
  sync_policy upsert_only_policy create_only_policy : Policy

unfoldable pub apply : Policy → Changes → Changes
apply sync_policy changes = changes
apply upsert_only_policy changes = record {
  create = changes.create;
  update_old = changes.update_old;
  update_new = changes.update_new;
  delete = [];
}
apply create_only_policy changes = record {
  create = changes.create;
  update_old = [];
  update_new = [];
  delete = [];
}

-- `for _, pol := range p.Policies`
unfoldable pub apply_all : List Policy → Changes → Changes
unfolding apply
apply_all [] changes = changes
apply_all (pol ∷ pols) changes = apply_all pols (apply pol changes)
