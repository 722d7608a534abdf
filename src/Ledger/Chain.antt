-- ===== src/Ledger/Chain.antt =====
-- Runs of `append` of kernel/state-ledger/index.ts.
use avorelo.Common.{
  ℕ, ◌+◌, String, ◌≡◌, refl, ap, ◌∙◌, sym, true, ◌&&◌, List, [], ◌∷◌, ◌++◌, length, length-append,
  arith, eq_iff,
}
use mathlib.Core.List.{append_assoc, append-nil, map}
use avorelo.Json.{Json}
use avorelo.Ledger.{
  LedgerEvent, StateLedger, AppendInput, last_hash_from, verify_from, verify_chain, new_event,
  append, append_all,
}

-- Event number i has sequence number i.
abbrev pub NumberedFrom : ℕ → List LedgerEvent → Type 0
NumberedFrom n [] = Unit
NumberedFrom n (e ∷ es) = (e.seq ≡ n) × NumberedFrom (n + 1) es

module _ (sha256 : String → String) where
  verify_from-snoc :
      (prev : String) (es : List LedgerEvent) (e : LedgerEvent)
      → verify_from sha256 prev (es ++ e ∷ [])
        ≡ verify_from sha256 prev es && verify_from sha256 (last_hash_from prev es) (e ∷ [])
  unfolding verify_from last_hash_from
  verify_from-snoc prev [] e = refl
  verify_from-snoc prev (x ∷ es) e = ground (arith, verify_from-snoc x.event_hash es e)

  module _ (redact : Json → Json) where
    new_event-links :
        (l : StateLedger) (now : ℕ) (input : AppendInput)
        → verify_from sha256
            (last_hash_from "GENESIS" l.events)
            (new_event sha256 redact l now input ∷ [])
          ≡ true
    unfolding verify_from new_event
    new_event-links l now input =
        let e = new_event sha256 redact l now input in
        rw ((eq_iff e.prev_hash e.prev_hash).1 refl, (eq_iff e.event_hash e.event_hash).1 refl) refl

    -- Appending to an intact chain leaves it intact.
    pub verify_chain-append :
        (l : StateLedger) (now : ℕ) (input : AppendInput)
        → verify_chain sha256 l ≡ true
        → verify_chain sha256 (append sha256 redact l now input).0 ≡ true
    unfolding verify_chain append
    verify_chain-append l now input h =
        let e = new_event sha256 redact l now input in
        verify_from-snoc "GENESIS" l.events e ∙ rw (h, new_event-links l now input) refl

    -- What an append stores: the old events stay as they were, and one event is added whose sequence
    -- number is the count of the old events and whose payload is redacted.
    pub append-events :
        (l : StateLedger) (now : ℕ) (input : AppendInput)
        → let (l', e) = append sha256 redact l now input in
          (l'.events ≡ l.events ++ e ∷ [])
          × (e.seq ≡ length l.events)
          × (e.payload ≡ redact input.payload)
    unfolding append new_event
    append-events l now input = (refl, refl, refl)

    -- The event that an append adds is of the kind given.
    pub append-type :
        (l : StateLedger) (now : ℕ) (input : AppendInput)
        → ((append sha256 redact l now input).1).type ≡ input.type
    unfolding append new_event
    append-type l now input = refl

    -- From an intact chain every run of appends, at any times, ends in an intact chain.
    pub verify_chain-append_all :
        (inputs : List (ℕ × AppendInput)) (l : StateLedger)
        → verify_chain sha256 l ≡ true
        → verify_chain sha256 (append_all sha256 redact l inputs) ≡ true
    unfolding append_all
    verify_chain-append_all [] l h = h
    verify_chain-append_all ((now, input) ∷ inputs) l h =
        verify_chain-append_all inputs (append sha256 redact l now input).0
          (verify_chain-append l now input h)

    -- The history only grows: a run of appends keeps the old events in front, and adds one event
    -- for each input, in order, numbered on from the count of the old ones, with the input's payload
    -- redacted.
    pub append_all-history :
        (inputs : List (ℕ × AppendInput)) (l : StateLedger)
        → (added : List LedgerEvent) × ((append_all sha256 redact l inputs).events
            ≡ l.events ++ added)
          × (map (λ (e : LedgerEvent). e.payload) added
              ≡ map (λ (i : ℕ × AppendInput). redact (i.1).payload) inputs)
          × NumberedFrom (length l.events) added
    unfolding append_all append new_event
    append_all-history [] l = ([], sym (append-nil l.events), refl, tt)
    append_all-history ((now, input) ∷ inputs) l =
        let e = new_event sha256 redact l now input in
        let (added, grown, stored, numbered) =
          append_all-history inputs (append sha256 redact l now input).0 in
        let count : length (l.events ++ e ∷ []) ≡ length l.events + 1 =
          length-append l.events (e ∷ []) ∙ omega arith in
        (
          e ∷ added,
          grown ∙ append_assoc l.events (e ∷ []) added,
          ap (λ ps. redact input.payload ∷ ps) stored,
          (refl, rw count at numbered),
        )
