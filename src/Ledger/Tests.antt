-- ===== src/Ledger/Tests.antt =====
-- A small ledger, with the identity in place of SHA-256 and of the redaction.
use mathlib.Core.List.{Memᴰ}
use avorelo.Common.{
  ℕ, text_lt, String, ◌≡◌, refl, sym, ap, ◌∙◌, true, none, some, List, [], ◌∷◌, ◌++◌, map, length,
}
use avorelo.Json.{Json, null, num, obj, field, end, stable_stringify}
use avorelo.Ledger.{
  LedgerEvent, StateLedger, AppendInput, core_of, empty, core_json, hash_event, verify_chain,
  append, append_all,
}
use avorelo.Ledger.Chain.{
  verify_chain-append, verify_chain-append_all, append_all-history, NumberedFrom,
}
use avorelo.Ledger.Tamper.{verify_chain_unique}

abbrev plain_hash : String → String
plain_hash s = s

abbrev plain : Json → Json
plain v = v

abbrev started : AppendInput
started = record {
  type = "loop.started";
  contract_id = some "c1";
  payload = obj (field "loopId" (num 7) end);
  reason_codes = none;
  ts = none;
}

abbrev completed : AppendInput
completed = record {
  type = "loop.completed";
  contract_id = none;
  payload = null;
  reason_codes = some ("DONE" ∷ []);
  ts = some 20;
}

abbrev two : List (ℕ × AppendInput)
two = (10, started) ∷ (11, completed) ∷ []

abbrev one_event : StateLedger
one_event = (append plain_hash plain empty 10 started).0

first_hash :
    map (λ (e : LedgerEvent). e.event_hash) one_event.events
    ≡ "{\"contractId\":\"c1\",\"payload\":{\"loopId\":7},\"prevHash\":\"GENESIS\",\"reasonCodes\":[],\"seq\":0,\"ts\":10,\"type\":\"loop.started\"}"
      ∷ []
unfolding append hash_event stable_stringify core_json empty text_lt
first_hash = refl

verify_chain-one_event : verify_chain plain_hash (append plain_hash plain empty 10 started).0 ≡ true
unfolding verify_chain empty
verify_chain-one_event = verify_chain-append plain_hash plain empty 10 started refl

verify_chain-append_all_example :
    verify_chain plain_hash (append_all plain_hash plain empty two) ≡ true
unfolding verify_chain empty
verify_chain-append_all_example = verify_chain-append_all plain_hash plain two empty refl

append_all-history_example :
    (added : List LedgerEvent) × ((append_all plain_hash plain empty two).events
      ≡ empty.events ++ added)
    × (map (λ (e : LedgerEvent). e.payload) added
        ≡ map (λ (i : ℕ × AppendInput). plain (i.1).payload) two)
    × NumberedFrom (length empty.events) added
append_all-history_example = append_all-history plain_hash plain two empty

-- The same events under forged ids.
abbrev forged : StateLedger
forged = record { events = map (λ (e : LedgerEvent). record e { event_id = "x" }) one_event.events }

verify_chain-forged : verify_chain plain_hash forged ≡ true
unfolding verify_chain append empty hash_event stable_stringify core_json text_lt
verify_chain-forged = refl

mem_singleton : {x y : LedgerEvent} → Memᴰ x (y ∷ []) → x ≡ y
mem_singleton (Memᴰ.head e) = e
mem_singleton (Memᴰ.tail m) = elim m [ ]

same_core :
    (x y : LedgerEvent) → Memᴰ x one_event.events → Memᴰ y forged.events → core_of x ≡ core_of y
unfolding append empty
same_core x y m k = ap core_of (mem_singleton m) ∙ sym (ap core_of (mem_singleton k))

verify_chain_unique_example : map core_of one_event.events ≡ map core_of forged.events
unfolding append empty verify_chain
verify_chain_unique_example =
    verify_chain_unique plain_hash one_event forged verify_chain-one_event verify_chain-forged refl
      refl (λ x y m k h. same_core x y m k)
