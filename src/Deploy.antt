-- ===== src/Deploy.antt =====
-- The script contracts/script/Deploy.s.sol, which deploys the contract of
-- contracts/src/BlobstreamX.sol behind a proxy, or upgrades it, and updates its parameters. A
-- variable that is not set and a call that reverts stop the script before anything is sent: `none`.
use blobstreamx.Base.{ℕ, ◌%◌, ◌^◌, Bool, Option, none, some, if◌then◌else◌}
use blobstreamx.Circuits.{◌>>=◌}
use blobstreamx.Contract.{initialize, update_gateway, update_genesis_state, update_function_ids}
use blobstreamx.Contract.Types.{
  InitParameters, Storage, Upgradeable, Message, Result, ok, revert, Outcome,
}

-- The variables that the script reads, but for `CREATE2_SALT` and `CONTRACT_ADDRESS`, which choose
-- addresses and are taken to be set.
pub record Environment : Type 0 where
  pub deploy : Option Bool
  pub upgrade : Option Bool
  pub update_gateway : Option Bool
  pub update_genesis_state : Option Bool
  pub update_function_ids : Option Bool
  pub gateway_address : Option ℕ
  pub guardian_address : Option ℕ
  pub genesis_height : Option ℕ
  pub genesis_header : Option ℕ
  pub header_range_function_id : Option ℕ
  pub next_header_function_id : Option ℕ

module _ {R : Type 0} where
  abbrev stored : Result (Outcome R) → Option (Storage R)
  stored (ok o) = some o.storage
  stored (revert e) = none

  -- A call that a variable switches on.
  abbrev pub switched :
      Option Bool → (Storage R → Option (Storage R)) → Storage R → Option (Storage R)
  switched flag call s = do on ← flag; if on then call s else some s

  module _ (u : Upgradeable R) (msg : Message) (env : Environment) where
    -- `initialize` on a new proxy; `uint32(…)` cuts the height off.
    unfoldable pub deployed : (gateway : ℕ) → Storage R → Option (Storage R)
    deployed gateway fresh = do
      guardian ← env.guardian_address
      height ← env.genesis_height
      header ← env.genesis_header
      header_range_function_id ← env.header_range_function_id
      next_header_function_id ← env.next_header_function_id
      let parameters : InitParameters = record {
        guardian = guardian;
        gateway = gateway;
        height = height % 2 ^ 32;
        header = header;
        header_range_function_id = header_range_function_id;
        next_header_function_id = next_header_function_id;
      }
      stored (initialize u parameters fresh)

    abbrev pub gateway_updated : (gateway : ℕ) → Storage R → Option (Storage R)
    gateway_updated gateway s = stored (update_gateway u gateway msg s)

    abbrev pub genesis_state_updated : Storage R → Option (Storage R)
    genesis_state_updated s = do
      height ← env.genesis_height
      header ← env.genesis_header
      stored (update_genesis_state u (height % 2 ^ 32) header msg s)

    abbrev pub function_ids_updated : Storage R → Option (Storage R)
    function_ids_updated s = do
      header_range_function_id ← env.header_range_function_id
      next_header_function_id ← env.next_header_function_id
      stored (update_function_ids u header_range_function_id next_header_function_id msg s)

    -- The updates at the end of the script.
    unfoldable pub updated : (gateway : ℕ) → Storage R → Option (Storage R)
    updated gateway s = do
      s' ← switched env.update_gateway (gateway_updated gateway) s
      s'' ← switched env.update_genesis_state genesis_state_updated s'
      switched env.update_function_ids function_ids_updated s''

    -- The script, with the storage of a new proxy and that of the contract at `CONTRACT_ADDRESS`;
    -- `upgradeTo` is inherited.
    unfoldable pub run :
        (upgrade_to : Storage R → Option (Storage R))
        → (fresh existing : Storage R) → Option (Storage R)
    unfolding deployed updated
    run upgrade_to fresh existing = do
      gateway ← env.gateway_address
      deploy ← env.deploy
      s ← if deploy then deployed gateway fresh else switched env.upgrade upgrade_to existing
      updated gateway s
