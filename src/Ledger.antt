-- ===== src/Ledger.antt =====
-- kernel/state-ledger/index.ts: the append-only, hash-chained event ledger.
-- SHA-256 is Node's and `redact` is the redaction module's: both are parameters. A time is an
-- argument of the call that reads the clock.
pub mod Chain
pub mod Tamper
mod Tests
use Prim.Native.String
use avorelo.Common.{
  ℕ, zero, suc, String, Bool, true, false, not, Option, none, some, List, [], ◌∷◌, ◌++◌, length,
  get_or, if◌then◌else◌, ◌==◌, string_eq, ◌&◌, slice_to,
}
use avorelo.Json.{
  Json, null, num, str, arr, obj, Items, nil, cons, field, end, stable_stringify, decimal,
}
use mathlib.Core.List.{foldl}

pub record LedgerEvent : Type 0 where
  pub event_id : String
  pub seq : ℕ
  pub ts : ℕ
  pub type : String
  pub contract_id : Option String
  pub payload : Json
  pub reason_codes : List String
  pub prev_hash : String
  pub event_hash : String
  pub redacted : Bool

-- What `hashEvent` is given.
pub record Core : Type 0 where
  pub seq : ℕ
  pub ts : ℕ
  pub type : String
  pub contract_id : Option String
  pub payload : Json
  pub reason_codes : List String
  pub prev_hash : String

pub record AppendInput : Type 0 where
  pub type : String
  pub contract_id : Option String
  pub payload : Json
  pub reason_codes : Option (List String)
  pub ts : Option ℕ

pub record StateLedger : Type 0 where
  pub events : List LedgerEvent

abbrev pub core_of : LedgerEvent → Core
core_of e = record {
  seq = e.seq;
  ts = e.ts;
  type = e.type;
  contract_id = e.contract_id;
  payload = e.payload;
  reason_codes = e.reason_codes;
  prev_hash = e.prev_hash;
}

unfoldable pub texts : List String → Items
texts [] = nil
texts (s ∷ ss) = cons (str s) (texts ss)

nullable : Option String → Json
nullable none = null
nullable (some s) = str s

-- The object literal `core`, in the order of its keys.
unfoldable pub core_json : Core → Json
unfolding texts nullable
core_json c = obj (
    field "seq" (num c.seq) (
      field "ts" (num c.ts) (
        field "type" (str c.type) (
          field "contractId" (nullable c.contract_id) (
            field "payload" c.payload (
              field "reasonCodes" (arr (texts c.reason_codes))
                (field "prevHash" (str c.prev_hash) end)))))))

unfoldable pub empty : StateLedger
empty = record { events = [] }

-- The last event's hash, or `prev` before any event.
pub last_hash_from : String → List LedgerEvent → String
last_hash_from prev [] = prev
last_hash_from prev (e ∷ es) = last_hash_from e.event_hash es

module _ (sha256 : String → String) where
  unfoldable pub hash_event : Core → String
  hash_event c = sha256 (stable_stringify (core_json c))

  -- The loop of `verifyChain`.
  pub verify_from : String → List LedgerEvent → Bool
  verify_from prev [] = true
  verify_from prev (e ∷ es) =
      let rest = verify_from e.event_hash es in
      if not (e.prev_hash == prev)
      then false
      else if not (hash_event (core_of e) == e.event_hash)
      then false
      else rest

  unfoldable pub verify_chain : StateLedger → Bool
  unfolding verify_from
  verify_chain l = verify_from "GENESIS" l.events

  module _ (redact : Json → Json) where
    pub new_event : StateLedger → ℕ → AppendInput → LedgerEvent
    new_event l now input =
        let core : Core = record {
          seq = length l.events;
          ts = get_or input.ts now;
          type = input.type;
          contract_id = input.contract_id;
          payload = redact input.payload;
          reason_codes = get_or input.reason_codes [];
          prev_hash = last_hash_from "GENESIS" l.events;
        } in
        let event_hash = hash_event core in
        record {
          event_id = decimal core.seq & ":" & slice_to 12 event_hash;
          seq = core.seq;
          ts = core.ts;
          type = core.type;
          contract_id = core.contract_id;
          payload = core.payload;
          reason_codes = core.reason_codes;
          prev_hash = core.prev_hash;
          event_hash = event_hash;
          redacted = true;
        }

    unfoldable pub append : StateLedger → ℕ → AppendInput → StateLedger × LedgerEvent
    unfolding new_event last_hash_from slice_to
    append l now input =
        let event = new_event l now input in (record l { events = l.events ++ event ∷ [] }, event)

    -- The ledger after a run of appends, each at its time.
    unfoldable pub append_all : StateLedger → List (ℕ × AppendInput) → StateLedger
    append_all l [] = l
    append_all l ((now, input) ∷ inputs) = append_all (append l now input).0 inputs

unfoldable pub replay_fold {ℓ} : {S : Type ℓ} → List LedgerEvent → (S → LedgerEvent → S) → S → S
replay_fold [] reducer initial = initial
replay_fold (e ∷ es) reducer initial = replay_fold es reducer (reducer initial e)

unfoldable pub fold {ℓ} : {S : Type ℓ} → StateLedger → (S → LedgerEvent → S) → S → S
fold l reducer initial = foldl reducer initial l.events
