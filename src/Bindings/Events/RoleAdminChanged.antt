-- ===== src/Bindings/Events/RoleAdminChanged.antt =====
-- The event `RoleAdminChanged` of bindings/BlobstreamX.go.
use blobstreamx.Base.{ℕ, Bool, Option, none, some, List, [], ◌∷◌}
use blobstreamx.Bindings.Values.{bytes32, Go}
use blobstreamx.Bindings.Geth.{Geth}
use blobstreamx.Bindings.Instance.{BlobstreamXFilterer, OrError}
use blobstreamx.Bindings.Iterator
use blobstreamx.Bindings.Iterator.{Iterator}
use blobstreamx.Bindings.Watch.{Watch}
use blobstreamx.Bindings.Filterer.{rule, filter_logs, watch_logs, parse_log}

module _ (g : Geth) where
  -- The field `raw` is `none` where the struct's `Raw` is the zero log.
  pub record RoleAdminChanged : Type 0 where
    pub role : ℕ
    pub previous_admin_role : ℕ
    pub new_admin_role : ℕ
    pub raw : Option g.Log

  -- `new(BlobstreamXRoleAdminChanged)`
  abbrev pub new_role_admin_changed : RoleAdminChanged
  new_role_admin_changed = record {
    role = 0;
    previous_admin_role = 0;
    new_admin_role = 0;
    raw = none;
  }

  abbrev pub set_raw : RoleAdminChanged → g.Log → RoleAdminChanged
  set_raw event log = record event { raw = some log }

  abbrev pub Iter : Type 0
  Iter = Iterator g RoleAdminChanged

  unfoldable pub next : Bool → Iter → Option (Bool × Iter)
  unfolding Iterator.next
  next = Iterator.next g new_role_admin_changed set_raw

  unfoldable pub error : Iter → Option g.Error
  unfolding Iterator.error
  error = Iterator.error g new_role_admin_changed set_raw

  unfoldable pub close : Iter → Option g.Error × Iter
  unfolding Iterator.close
  close = Iterator.close g new_role_admin_changed set_raw

  unfoldable pub filter_role_admin_changed :
      BlobstreamXFilterer g
      → g.FilterOpts
      → List ℕ
      → List ℕ
      → List ℕ
      → g.Chain
      → Go (OrError g Iter)
  unfolding filter_logs
  filter_role_admin_changed f opts role previous_admin_role new_admin_role =
      filter_logs g RoleAdminChanged f opts "RoleAdminChanged"
        (rule bytes32 role ∷ rule bytes32 previous_admin_role ∷ rule bytes32 new_admin_role ∷ [])

  unfoldable pub watch_role_admin_changed :
      BlobstreamXFilterer g
      → g.WatchOpts
      → List ℕ
      → List ℕ
      → List ℕ
      → g.Chain
      → Go (OrError g (Watch g RoleAdminChanged))
  unfolding watch_logs
  watch_role_admin_changed f opts role previous_admin_role new_admin_role =
      watch_logs g RoleAdminChanged f opts "RoleAdminChanged"
        (rule bytes32 role ∷ rule bytes32 previous_admin_role ∷ rule bytes32 new_admin_role ∷ [])

  unfoldable pub parse_role_admin_changed :
      BlobstreamXFilterer g → g.Log → Go (OrError g RoleAdminChanged)
  unfolding parse_log
  parse_role_admin_changed f = parse_log g new_role_admin_changed set_raw f "RoleAdminChanged"
