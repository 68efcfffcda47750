-- ===== src/Bindings/Filterer/Agreement.antt =====
-- How the `Filter…` and `Parse…` functions of bindings/BlobstreamX.go agree with the iterators.
use mathlib.Core.List.{append_assoc, append-nil}
use blobstreamx.Base.{
  ℕ, suc, String, Bool, true, false, none, some, List, [], ◌∷◌, ◌++◌, map, length, ◌≡◌, refl, sym,
  ◌∙◌, arith,
}
use blobstreamx.Bindings.Values.{Value, returned}
use blobstreamx.Bindings.Geth.{Geth}
use blobstreamx.Bindings.Instance.{BlobstreamXFilterer, OrError}
use blobstreamx.Bindings.Iterator.{Iterator, event_of, next, collect, error, deliver}
use blobstreamx.Bindings.Iterator.Progress.{Unpacks, collect_all}
use blobstreamx.Bindings.Filterer.{rule, append_items, filter_logs, parse_log}

append_items-map {ℓ} :
    {A : Type ℓ} (box : A → Value) (acc : List Value) (items : List A)
    → append_items box acc items ≡ acc ++ map box items
append_items-map box acc [] = sym (append-nil acc)
append_items-map box acc (item ∷ items) =
    append_items-map box (acc ++ box item ∷ []) items
    ∙ append_assoc acc (box item ∷ []) (map box items)

-- The loop that builds a rule boxes each item, in order.
pub rule-map {ℓ} : {A : Type ℓ} (box : A → Value) (items : List A) → rule box items ≡ map box items
unfolding rule
rule-map box items = append_items-map box [] items

module _ (g : Geth) {E : Type 0} (zero_event : E) (set_raw : E → g.Log → E) where
  -- A filter whose logs wait behind an ended subscription, followed by a loop over its iterator: it
  -- gives no error, and the loop ends after showing the events of all the logs, in order, if each
  -- can be unpacked.
  pub filter_logs-collect :
      (choices : ℕ → Bool) (f : BlobstreamXFilterer g) (contract : g.BoundContract)
      (opts : g.FilterOpts) (name : String) (rules : List (List Value)) (chain : g.Chain)
      (logs : List g.Log)
      → f.contract ≡ some contract
      → g.filter_logs contract opts name rules chain
        ≡ (record { logs = logs; ended = some none }, none)
      → Unpacks g zero_event set_raw contract name logs
      → (it it' : Iterator g E) × (filter_logs g E f opts name rules chain
          ≡ returned (some it, none))
        × (collect g zero_event set_raw (suc (length logs)) choices it
            ≡ (map (event_of g zero_event set_raw contract name) logs, some it'))
        × (error g zero_event set_raw it' ≡ none)
  unfolding filter_logs
  filter_logs-collect choices f contract opts name rules chain logs c q u =
      let it : Iterator g E = record {
        event = none;
        contract = contract;
        name = name;
        feed = record { logs = logs; ended = some none };
        unsubscribed = false;
        done = false;
        fail = none;
      } in
      let (it', all, ok) =
        collect_all g zero_event set_raw (suc (length logs)) choices it logs refl refl u
          (omega arith) in
      (it, it', ground arith, all, ok)

  abbrev pub parsed : Bool → Iterator g E → OrError g E
  parsed true it = (it.event, it.fail)
  parsed false it = (none, it.fail)

  -- On an iterator that is neither done nor failed, whose subscription has not ended and whose filterer
  -- has the same contract, `Parse…` on the first log that waits gives what `Next` gives for it: the
  -- same event where the log can be unpacked, and otherwise the error that `Error` then gives; and
  -- `Next` takes this log alone out of the channel.
  pub parse_log-next :
      (b : Bool) (f : BlobstreamXFilterer g) (it : Iterator g E) (log : g.Log) (rest : List g.Log)
      → f.contract ≡ some it.contract
      → it.fail ≡ none
      → it.done ≡ false
      → it.feed ≡ record { logs = log ∷ rest; ended = none }
      → (more : Bool) × (it' : Iterator g E) × (next g zero_event set_raw b it ≡ some (more, it'))
        × (parse_log g zero_event set_raw f it.name log ≡ returned (parsed more it'))
        × (it'.feed.logs ≡ rest)
  unfolding parse_log next deliver
  parse_log-next b f it log rest c k d q =
      let r = deliver g zero_event set_raw log rest it in
      (r.0, r.1, ground arith, ground arith, ground arith)
