-- ===== src/Tests/Simulated.antt =====
-- A go-ethereum over a chain that is the storage of one contract, and shows that the assumptions of
-- `Onchain.Deployed` can be met. A transaction is a method's name with the arguments, and is refused
-- where the call would revert at once; the logs are heights and hashes.
use blobstreamx.Base.{
  ℕ, ◌≡◌, refl, Bool, true, false, not, ◌&&◌, String, Option, none, some, List, [], ◌∷◌,
  if◌then◌else◌,
}
use blobstreamx.Bindings.Values.{Value}
use blobstreamx.Bindings.Geth.{Geth}
use blobstreamx.Bindings.Metadata.{well_typed, all_fit}
use blobstreamx.Contract.Types.{Storage, Result, ok, revert, Outcome}
use blobstreamx.Contract.Transactions.{Call, exec}
use blobstreamx.Onchain.Dispatch.{view_function, function_call, is_inherited}
use blobstreamx.Onchain.Deployed.{Deployed, Answers, Ran}
use blobstreamx.Tests.ContractRuns.{access, message, knows_nine}

-- Whether a call is encoded and reaches the contract itself.
abbrev pub sendable : String → List Value → Bool
sendable name args = well_typed name args && (all_fit args && not (is_inherited name))

abbrev pub reply : Option (Result Value) → List Value × Option String
reply (some (ok v)) = (v ∷ [], none)
reply (some (revert e)) = ([], some "execution reverted")
reply none = ([], some "execution reverted")

-- Whether a call succeeds, and the storage after it.
abbrev pub outcome : Storage ℕ → Result (Outcome ℕ) → Bool × Storage ℕ
outcome chain (ok o) = (true, o.storage)
outcome chain (revert e) = (false, chain)

abbrev pub executed : Storage ℕ → Option Call → Bool × Storage ℕ
executed chain none = (false, chain)
executed chain (some c) = outcome chain (exec access c message chain)

-- What is sent, if gas can be estimated for the call.
abbrev pub estimated : Bool → String → List Value → Option (String × List Value) × Option String
estimated true name args = (some (name, args), none)
estimated false name args = (none, some "execution reverted")

abbrev pub attempt :
    Bool
    → String
    → List Value
    → Storage ℕ
    → Option Call
    → Option (String × List Value) × Option String
attempt true name args chain c = estimated (executed chain c).0 name args
attempt false name args chain c = (none, some "no such method")

abbrev pub simulated : Geth
simulated = record {
  Chain = Storage ℕ;
  Error = String;
  CallOpts = Unit {0};
  TransactOpts = Unit {0};
  FilterOpts = Unit {0};
  WatchOpts = Unit {0};
  Transaction = String × List Value;
  Log = ℕ × ℕ;
  Abi = Unit {0};
  BoundContract = ℕ;
  ContractCaller = Unit {0};
  ContractTransactor = Unit {0};
  ContractFilterer = Unit {0};
  new_error = λ s. s;
  get_abi = λ s. (some tt, none);
  from_hex = λ s. [];
  new_bound_contract = λ address abi c t f. address;
  deploy_contract = λ auth abi code backend chain. ((8, some ("deploy", []), some 8, none), chain);
  call = λ bound opts out name args chain.
      if sendable name args
      then reply (view_function knows_nine name args chain)
      else ([], some "no such method");
  transact = λ bound opts name args chain.
      (attempt (sendable name args) name args chain (function_call name args), chain);
  transfer = λ bound opts chain. ((none, some "execution reverted"), chain);
  convert_type = λ v p. some v;
  filter_logs = λ bound opts name rules chain.
      (record { logs = (11, 5) ∷ (12, 7) ∷ []; ended = some none }, none);
  watch_logs = λ bound opts name rules chain. (record { logs = []; ended = none }, none);
  unpack_log = λ E bound event name log. (event, none);
}

pub reply-Answers : (r : Option (Result Value)) → Answers {Error = String} r (reply r)
reply-Answers none = ("execution reverted", refl)
reply-Answers (some (ok v)) = refl
reply-Answers (some (revert e)) = ("execution reverted", refl)

outcome-Ran :
    (c : Call) (chain : Storage ℕ) (r : Result (Outcome ℕ))
    → exec access c message chain ≡ r
    → Ran access message (some c) chain (outcome chain r).0 (outcome chain r).1
outcome-Ran c chain (ok o) e = (o, e, refl)
outcome-Ran c chain (revert x) e = refl

executed-Ran :
    (c : Option Call) (chain : Storage ℕ)
    → Ran access message c chain (executed chain c).0 (executed chain c).1
executed-Ran none chain = refl
executed-Ran (some c) chain = outcome-Ran c chain (exec access c message chain) refl

estimated_sent :
    (b : Bool) (name : String) (args : List Value)
    → (estimated b name args).1 ≡ none
    → (estimated b name args).0 ≡ some (name, args)
estimated_sent true name args e = refl
estimated_sent false name args e = cc

estimated_failed :
    (b : Bool) (name : String) (args : List Value) (e : String)
    → (estimated b name args).1 ≡ some e
    → (estimated b name args).0 ≡ none
estimated_failed true name args e q = cc
estimated_failed false name args e q = refl

pub attempt_sent :
    (b : Bool) (name : String) (args : List Value) (chain : Storage ℕ) (c : Option Call)
    → (attempt b name args chain c).1 ≡ none
    → (attempt b name args chain c).0 ≡ some (name, args)
attempt_sent true name args chain c e = estimated_sent (executed chain c).0 name args e
attempt_sent false name args chain c e = cc

pub attempt_failed :
    (b : Bool) (name : String) (args : List Value) (chain : Storage ℕ) (c : Option Call)
    (e : String)
    → (attempt b name args chain c).1 ≡ some e
    → (attempt b name args chain c).0 ≡ none
attempt_failed true name args chain c e q = estimated_failed (executed chain c).0 name args e q
attempt_failed false name args chain c e q = refl

pub attempt_mistyped :
    (w b : Bool) (name : String) (args : List Value) (chain : Storage ℕ) (c : Option Call)
    → w ≡ false
    → (e : String) × ((attempt (w && b) name args chain c).1 ≡ some e)
attempt_mistyped false b name args chain c h = ("no such method", refl)
attempt_mistyped true b name args chain c h = cc

pub carried-Ran :
    (name : String) (args : List Value) (t : String × List Value) (chain : Storage ℕ)
    → t ≡ (name, args)
    → Ran access message
        (function_call name args)
        chain
        (executed chain (function_call t.0 t.1)).0
        (executed chain (function_call t.0 t.1)).1
carried-Ran name args t chain e = rw e (executed-Ran (function_call name args) chain)

pub sendable_intro :
    (name : String) (args : List Value)
    → well_typed name args ≡ true
    → all_fit args ≡ true
    → is_inherited name ≡ false
    → sendable name args ≡ true
sendable_intro name args w f i = rw (w, f, i)

pub answered :
    (b : Bool) (r : Option (Result Value))
    → b ≡ true
    → Answers {Error = String} r (if b then reply r else ([], some "no such method"))
answered true r t = reply-Answers r
answered false r t = cc

-- The simulation meets the assumptions.
abbrev pub deployed : Deployed simulated access knows_nine 8
deployed = record {
  storage = λ chain. chain;
  storage_at = λ opts chain. chain;
  message = λ opts chain. message;
  call_lem = λ opts name args chain w f i.
      answered (sendable name args) (view_function knows_nine name args chain)
        (sendable_intro name args w f i);
  Carries = λ opts name args t. t ≡ (name, args);
  execute = λ t chain. executed chain (function_call t.0 t.1);
  transact_keeps = λ opts name args chain. refl;
  transact_sent = λ opts name args chain q. (
    (name, args),
    attempt_sent (sendable name args) name args chain (function_call name args) q,
    refl,
  );
  transact_failed = λ opts name args chain e q.
      attempt_failed (sendable name args) name args chain (function_call name args) e q;
  transact_mistyped = λ opts name args chain w.
      attempt_mistyped (well_typed name args) (all_fit args && not (is_inherited name)) name args
        chain (function_call name args) w;
  execute_lem = λ opts name args t chain c w f i. carried-Ran name args t chain c;
  convert_type_lem = λ v p e. refl;
}
