-- ===== src/Bindings/Events/RoleGranted.antt =====
-- The event `RoleGranted` of bindings/BlobstreamX.go.
use blobstreamx.Base.{ℕ, Bool, Option, none, some, List, [], ◌∷◌}
use blobstreamx.Bindings.Values.{address, bytes32, Go}
use blobstreamx.Bindings.Geth.{Geth}
use blobstreamx.Bindings.Instance.{BlobstreamXFilterer, OrError}
use blobstreamx.Bindings.Iterator
use blobstreamx.Bindings.Iterator.{Iterator}
use blobstreamx.Bindings.Watch.{Watch}
use blobstreamx.Bindings.Filterer.{rule, filter_logs, watch_logs, parse_log}

module _ (g : Geth) where
  -- The field `raw` is `none` where the struct's `Raw` is the zero log.
  pub record RoleGranted : Type 0 where
    pub role : ℕ
    pub account : ℕ
    pub sender : ℕ
    pub raw : Option g.Log

  -- `new(BlobstreamXRoleGranted)`
  abbrev pub new_role_granted : RoleGranted
  new_role_granted = record { role = 0; account = 0; sender = 0; raw = none }

  abbrev pub set_raw : RoleGranted → g.Log → RoleGranted
  set_raw event log = record event { raw = some log }

  abbrev pub Iter : Type 0
  Iter = Iterator g RoleGranted

  unfoldable pub next : Bool → Iter → Option (Bool × Iter)
  unfolding Iterator.next
  next = Iterator.next g new_role_granted set_raw

  unfoldable pub error : Iter → Option g.Error
  unfolding Iterator.error
  error = Iterator.error g new_role_granted set_raw

  unfoldable pub close : Iter → Option g.Error × Iter
  unfolding Iterator.close
  close = Iterator.close g new_role_granted set_raw

  unfoldable pub filter_role_granted :
      BlobstreamXFilterer g
      → g.FilterOpts
      → List ℕ
      → List ℕ
      → List ℕ
      → g.Chain
      → Go (OrError g Iter)
  unfolding filter_logs
  filter_role_granted f opts role account sender =
      filter_logs g RoleGranted f opts "RoleGranted"
        (rule bytes32 role ∷ rule address account ∷ rule address sender ∷ [])

  unfoldable pub watch_role_granted :
      BlobstreamXFilterer g
      → g.WatchOpts
      → List ℕ
      → List ℕ
      → List ℕ
      → g.Chain
      → Go (OrError g (Watch g RoleGranted))
  unfolding watch_logs
  watch_role_granted f opts role account sender =
      watch_logs g RoleGranted f opts "RoleGranted"
        (rule bytes32 role ∷ rule address account ∷ rule address sender ∷ [])

  unfoldable pub parse_role_granted : BlobstreamXFilterer g → g.Log → Go (OrError g RoleGranted)
  unfolding parse_log
  parse_role_granted f = parse_log g new_role_granted set_raw f "RoleGranted"
