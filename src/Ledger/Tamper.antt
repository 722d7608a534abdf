-- ===== src/Ledger/Tamper.antt =====
-- What an intact chain says of its events.
use mathlib.Core.List.{Memᴰ}
use avorelo.Common.{
  String, ◌≡◌, refl, sym, ap, ◌∙◌, true, List, [], ◌∷◌, map, arith, eq_iff, length,
}
use mathlib.Core.Path.{ap₂}
use avorelo.Ledger.{
  LedgerEvent, Core, StateLedger, core_of, last_hash_from, hash_event, verify_from, verify_chain,
}

module _ (sha256 : String → String) where
  verify_from-parts :
      (prev : String) (e : LedgerEvent) (es : List LedgerEvent)
      → verify_from sha256 prev (e ∷ es) ≡ true
      → (e.prev_hash ≡ prev)
        × (hash_event sha256 (core_of e) ≡ e.event_hash)
        × (verify_from sha256 e.event_hash es ≡ true)
  unfolding verify_from
  verify_from-parts prev e es h =
      ground (arith, eq_iff e.prev_hash prev, eq_iff (hash_event sha256 (core_of e)) e.event_hash)

  -- No two different events of the two lists have the same hash.
  abbrev pub NoCollision : List LedgerEvent → List LedgerEvent → Type 0
  NoCollision xs ys =
      (x y : LedgerEvent)
      → Memᴰ x xs
      → Memᴰ y ys
      → hash_event sha256 (core_of x) ≡ hash_event sha256 (core_of y)
      → core_of x ≡ core_of y

  verify_from_unique :
      (p q : String) (xs ys : List LedgerEvent)
      → verify_from sha256 p xs ≡ true
      → verify_from sha256 q ys ≡ true
      → length xs ≡ length ys
      → last_hash_from p xs ≡ last_hash_from q ys
      → NoCollision xs ys
      → (map core_of xs ≡ map core_of ys) × (p ≡ q)
  unfolding last_hash_from
  verify_from_unique p q [] [] v w n e safe = (refl, e)
  verify_from_unique p q [] (y ∷ ys) v w n e safe = absurd (omega arith)
  verify_from_unique p q (x ∷ xs) [] v w n e safe = absurd (omega arith)
  verify_from_unique p q (x ∷ xs) (y ∷ ys) v w n e safe =
      let (xp, xh, xv) = verify_from-parts p x xs v in
      let (yp, yh, yv) = verify_from-parts q y ys w in
      let (rest, hashes) =
        verify_from_unique x.event_hash y.event_hash xs ys xv yv (omega arith) e
          (λ a b m k. safe a b (Memᴰ.tail m) (Memᴰ.tail k)) in
      let cores = safe x y (Memᴰ.head refl) (Memᴰ.head refl) (xh ∙ hashes ∙ sym yh) in
      (ap₂ ◌∷◌ cores rest, sym xp ∙ ap (λ (c : Core). c.prev_hash) cores ∙ yp)

  -- Two intact chains with as many events and the same last hash hold the same events, in every
  -- hashed field, unless two different events among them have the same hash.
  pub verify_chain_unique :
      (l m : StateLedger)
      → verify_chain sha256 l ≡ true
      → verify_chain sha256 m ≡ true
      → length l.events ≡ length m.events
      → last_hash_from "GENESIS" l.events ≡ last_hash_from "GENESIS" m.events
      → NoCollision l.events m.events
      → map core_of l.events ≡ map core_of m.events
  unfolding verify_chain
  verify_chain_unique l m v w n e safe =
      (verify_from_unique "GENESIS" "GENESIS" l.events m.events v w n e safe).0
