-- ===== src/System/Deployed.antt =====
-- That the script contracts/script/Deploy.s.sol leaves a contract that follows the chain.
use blobstreamx.Base.{
  ℕ, ◌%◌, ◌^◌, ◌≡◌, ◌≤◌, ◌<◌, refl, Bool, true, false, Option, some, arith, update,
}
use blobstreamx.Contract.{initialize, update_gateway, update_genesis_state, update_function_ids}
use blobstreamx.Contract.Types.{Storage, Upgradeable, Message}
use blobstreamx.Deploy.{
  Environment, switched, deployed, gateway_updated, genesis_state_updated, function_ids_updated,
  updated, run,
}
use blobstreamx.System.{Follows}

module _ {R : Type 0} (u : Upgradeable R) (msg : Message) (env : Environment) (hash : ℕ → ℕ)
    (head gateway guardian height range_id next_id : ℕ) where
  -- The contract is at the genesis block.
  record AtGenesis (access : R) (s : Storage R) : Type 0 where
    access_kept : s.access ≡ access
    follows : Follows hash head gateway range_id next_id s
    latest : s.latest_block ≡ height
    nonce : s.state_proof_nonce ≡ 1

  -- A switched call that keeps the contract there keeps it there whether it is made or not.
  switched-AtGenesis :
      (access : R) (flag : Option Bool) (on : Bool) (call : Storage R → Option (Storage R))
      (s : Storage R)
      → flag ≡ some on
      → AtGenesis access s
      → (s' : Storage R) × (call s ≡ some s') × AtGenesis access s'
      → (s' : Storage R) × (switched flag call s ≡ some s') × AtGenesis access s'
  switched-AtGenesis access flag true call s e x y = rw e y
  switched-AtGenesis access flag false call s e x y = rw e (s, refl, x)

  module _ (gateway_set : env.gateway_address ≡ some gateway)
      (guardian_set : env.guardian_address ≡ some guardian)
      (height_set : env.genesis_height ≡ some height)
      (header_set : env.genesis_header ≡ some (hash height))
      (range_set : env.header_range_function_id ≡ some range_id)
      (next_set : env.next_header_function_id ≡ some next_id) (positive : 0 < height)
      (small : height < 2 ^ 32) (below : height ≤ head) where
    at_genesis :
        (access : R) (s : Storage R)
        → s.access ≡ access
        → s.frozen ≡ false
        → s.gateway ≡ gateway
        → s.header_range_function_id ≡ range_id
        → s.next_header_function_id ≡ next_id
        → s.latest_block ≡ height
        → s.block_height_to_header_hash height ≡ hash height
        → s.state_proof_nonce ≡ 1
        → AtGenesis access s
    at_genesis access s a f g r n l h k = record {
      access_kept = a;
      follows = record {
        thawed = f;
        gateway_kept = g;
        range_kept = r;
        next_kept = n;
        positive = rw l positive;
        below = rw l below;
        header = rw l h;
      };
      latest = l;
      nonce = k;
    }

    deployed-AtGenesis :
        (fresh : Storage R) (access : R)
        → u.initializer fresh.access guardian guardian ≡ some access
        → (s : Storage R) × (deployed u msg env gateway fresh ≡ some s) × AtGenesis access s
    unfolding deployed initialize
    deployed-AtGenesis fresh access e =
        let cut : height % 2 ^ 32 ≡ height = omega arith in
        (
          record fresh {
            access = access;
            frozen = false;
            gateway = gateway;
            block_height_to_header_hash =
                update fresh.block_height_to_header_hash height (hash height);
            latest_block = height;
            next_header_function_id = next_id;
            header_range_function_id = range_id;
            state_proof_nonce = 1;
          },
          rw (guardian_set, height_set, header_set, range_set, next_set, cut, e) refl,
          at_genesis access
              (record fresh {
                access = access;
                frozen = false;
                gateway = gateway;
                block_height_to_header_hash =
                    update fresh.block_height_to_header_hash height (hash height);
                latest_block = height;
                next_header_function_id = next_id;
                header_range_function_id = range_id;
                state_proof_nonce = 1;
              })
              refl refl refl refl refl refl (ground arith) refl,
        )

    module _ (access : R) (may : u.is_guardian access msg.sender ≡ true) (s : Storage R)
        (x : AtGenesis access s) where
      guard : u.is_guardian s.access msg.sender ≡ true
      guard = rw (x.access_kept, may) refl

      kept : s.block_height_to_header_hash height ≡ hash height
      kept = let f = x.follows in rw (← x.latest) f.header

      gateway_updated-AtGenesis :
          (s' : Storage R) × (gateway_updated u msg env gateway s ≡ some s') × AtGenesis access s'
      unfolding update_gateway
      gateway_updated-AtGenesis =
          let f = x.follows in
          let s' = record s { gateway = gateway } in
          (
            s',
            rw guard refl,
            at_genesis access s' x.access_kept f.thawed refl f.range_kept f.next_kept x.latest kept
                x.nonce,
          )

      genesis_state_updated-AtGenesis :
          (s' : Storage R) × (genesis_state_updated u msg env s ≡ some s') × AtGenesis access s'
      unfolding update_genesis_state
      genesis_state_updated-AtGenesis =
          let f = x.follows in
          let cut : height % 2 ^ 32 ≡ height = omega arith in
          let s' = record s {
            block_height_to_header_hash = update s.block_height_to_header_hash height (hash height);
            latest_block = height;
          } in
          (
            s',
            rw (height_set, header_set, cut, guard) refl,
            at_genesis access s' x.access_kept f.thawed f.gateway_kept f.range_kept f.next_kept refl
                (ground arith) x.nonce,
          )

      function_ids_updated-AtGenesis :
          (s' : Storage R) × (function_ids_updated u msg env s ≡ some s') × AtGenesis access s'
      unfolding update_function_ids
      function_ids_updated-AtGenesis =
          let f = x.follows in
          let s' = record s {
            header_range_function_id = range_id;
            next_header_function_id = next_id;
          } in
          (
            s',
            rw (range_set, next_set, guard) refl,
            at_genesis access s' x.access_kept f.thawed f.gateway_kept refl refl x.latest kept
                x.nonce,
          )

    run-steps :
        (upgrade_to : Storage R → Option (Storage R)) (fresh existing s s1 s2 s3 : Storage R)
        → env.deploy ≡ some true
        → deployed u msg env gateway fresh ≡ some s
        → switched env.update_gateway (gateway_updated u msg env gateway) s ≡ some s1
        → switched env.update_genesis_state (genesis_state_updated u msg env) s1 ≡ some s2
        → switched env.update_function_ids (function_ids_updated u msg env) s2 ≡ some s3
        → run u msg env upgrade_to fresh existing ≡ some s3
    unfolding run updated
    run-steps upgrade_to fresh existing s s1 s2 s3 d p p1 p2 p3 = rw (gateway_set, d, p, p1, p2) p3

    -- The script, with its variables set, where it deploys the contract with a genesis height above 0,
    -- of 32 bits and not above the head, the proxy can be initialized and the sender passes as a
    -- guardian then: whichever of the updates are switched on as well, it succeeds and leaves a
    -- contract that follows the chain, at the genesis block and with the nonce 1.
    pub run-Follows :
        (upgrade_to : Storage R → Option (Storage R)) (fresh existing : Storage R) (access : R)
        (a b c : Bool)
        → env.deploy ≡ some true
        → env.update_gateway ≡ some a
        → env.update_genesis_state ≡ some b
        → env.update_function_ids ≡ some c
        → u.initializer fresh.access guardian guardian ≡ some access
        → u.is_guardian access msg.sender ≡ true
        → (s : Storage R) × (run u msg env upgrade_to fresh existing ≡ some s)
          × Follows hash head gateway range_id next_id s
          × (s.latest_block ≡ height)
          × (s.state_proof_nonce ≡ 1)
    run-Follows upgrade_to fresh existing access a b c d ea eb ec e may =
        let (s, p, x) = deployed-AtGenesis fresh access e in
        let (s1, p1, x1) =
          switched-AtGenesis access env.update_gateway a (gateway_updated u msg env gateway) s ea x
            (gateway_updated-AtGenesis access may s x) in
        let (s2, p2, x2) =
          switched-AtGenesis access env.update_genesis_state b (genesis_state_updated u msg env) s1
            eb x1 (genesis_state_updated-AtGenesis access may s1 x1) in
        let (s3, p3, x3) =
          switched-AtGenesis access env.update_function_ids c (function_ids_updated u msg env) s2 ec
            x2 (function_ids_updated-AtGenesis access may s2 x2) in
        (
          s3,
          run-steps upgrade_to fresh existing s s1 s2 s3 d p p1 p2 p3,
          x3.follows,
          x3.latest,
          x3.nonce,
        )
