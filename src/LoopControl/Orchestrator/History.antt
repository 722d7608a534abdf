-- ===== src/LoopControl/Orchestrator/History.antt =====
-- What a loop writes into its ledger, and the numbers of its iterations.
use avorelo.Common.{
  ℕ, suc, ◌+◌, String, ◌≡◌, refl, ap, ◌∙◌, Bool, true, false, List, [], ◌∷◌, ◌++◌, filter, length,
  length-append, arith, if◌then◌else◌, map, Bool-cases, inl, inr,
}
use mathlib.Core.List.{map-append, append-nil, append_assoc}
use avorelo.Schemas.{GateDecision, continue, stop_blocked, stop_done}
use avorelo.Json.{Json, Fields}
use avorelo.Ledger.{LedgerEvent, StateLedger, AppendInput, empty, append, verify_chain}
use avorelo.Ledger.Chain.{verify_chain-append, append-events, append-type}
use avorelo.LoopControl.{LoopIterationSummary, LoopStopReason}
use avorelo.Receipts.{WriteReceiptInput, receipt_json, build_receipt, receipt_event, write_receipt}
use avorelo.LoopControl.Orchestrator.{
  IterationEnv, LoopEnv, OrchestratorInput, Run, Flow, stopped_with, with_summary, event_of,
}
use avorelo.LoopControl.Orchestrator.Iteration.{
  Found, recorded, find_out, carry_on, iteration_event,
}
use avorelo.LoopControl.Orchestrator.Loop.{started, looped, receipted, finished, run_loop, log}
use avorelo.LoopControl.Orchestrator.Rules.{Stop, Step, Gives, iterate_from-Gives}

abbrev pub went_on : LoopIterationSummary → Bool
went_on s = elim s.gate_decision [ continue ↦ true | _ ↦ false ]

-- The iterations that were followed by another turn of the loop.
abbrev pub continued : List LoopIterationSummary → List LoopIterationSummary
continued ss = filter (λ s. went_on s) ss

-- The kind of the event that such an iteration is logged with.
abbrev kind_logged : LoopIterationSummary → String
kind_logged s = "loop.iteration_completed"

-- The kinds of a loop's events before its receipt.
abbrev pub kinds_logged : List LoopIterationSummary → List String
kinds_logged ss = "loop.started" ∷ map kind_logged (continued ss)

-- The kinds of the events in a ledger.
abbrev pub kinds : StateLedger → List String
kinds l = map (λ (e : LedgerEvent). e.type) l.events

-- The iterations have the numbers from `n` on.
abbrev pub NumberedFrom : ℕ → List LoopIterationSummary → Type 0
NumberedFrom n [] = Unit
NumberedFrom n (s ∷ ss) = (s.iteration ≡ n) × NumberedFrom (suc n) ss

NumberedFrom-snoc :
    (n m : ℕ) (ss : List LoopIterationSummary) (s : LoopIterationSummary)
    → NumberedFrom n ss
    → s.iteration ≡ m
    → n + length ss ≡ m
    → NumberedFrom n (ss ++ s ∷ [])
NumberedFrom-snoc n m [] s h e k = (omega arith, tt)
NumberedFrom-snoc n m (x ∷ ss) s h e k = (h.0, NumberedFrom-snoc (suc n) m ss s h.1 e (omega arith))

continued-snoc :
    (ss : List LoopIterationSummary) (s : LoopIterationSummary)
    → continued (ss ++ s ∷ []) ≡ continued ss ++ (if went_on s then s ∷ [] else [])
continued-snoc [] s = refl
continued-snoc (x ∷ ss) s = elim (Bool-cases (went_on x)) [
  | inl e ↦ rw e (ap (λ cs. x ∷ cs) (continued-snoc ss s))
  | inr e ↦ rw e (continued-snoc ss s)
]

module _ (sha256 : String → String) (redact : Json → Json) where
  -- An intact chain of events of these kinds.
  abbrev Intact : List String → StateLedger → Type 0
  Intact ks l = (verify_chain sha256 l ≡ true) × (kinds l ≡ ks)

  append-kinds :
      (l : StateLedger) (now : ℕ) (input : AppendInput)
      → kinds (append sha256 redact l now input).0 ≡ kinds l ++ input.type ∷ []
  append-kinds l now input =
      let e = (append sha256 redact l now input).1 in
      let kind : LedgerEvent → String = λ x. x.type in
      ap (λ (es : List LedgerEvent). map kind es) (append-events sha256 redact l now input).0
      ∙ map-append kind l.events (e ∷ [])
      ∙ ap (λ (t : String). kinds l ++ t ∷ []) (append-type sha256 redact l now input)

  append-Intact :
      (l : StateLedger) (ks : List String) (now : ℕ) (input : AppendInput)
      → Intact ks l
      → Intact (ks ++ input.type ∷ []) (append sha256 redact l now input).0
  append-Intact l ks now input h = (
    verify_chain-append sha256 redact l now input h.0,
    append-kinds l now input ∙ ap (λ (ts : List String). ts ++ input.type ∷ []) h.1,
  )

  write_receipt-Intact :
      (uuid : String) (now logged_at : ℕ) (l : StateLedger) (input : WriteReceiptInput)
      (ks : List String)
      → Intact ks l
      → Intact
          (ks ++ "receipt.written" ∷ [])
          (write_receipt sha256 redact uuid now logged_at l input).0
  unfolding write_receipt receipt_event
  write_receipt-Intact uuid now logged_at l input ks h =
      append-Intact l ks logged_at
        (receipt_event input (redact (receipt_json (build_receipt sha256 uuid now input)))) h

find_out-iteration :
    (to_lower_case : String → String) (input : OrchestratorInput) (i : ℕ) (env : IterationEnv)
    (run : Run) (f : Found)
    → f ≡ find_out to_lower_case input i env run
    → f.summary.iteration ≡ i
unfolding find_out
find_out-iteration l input i env run f found = ap (λ (g : Found). g.summary.iteration) found

-- A summary that stops the loop is not one of those that went on.
Stop-stops :
    {run : Run} {f : Found} {reason : LoopStopReason} {decision : GateDecision}
    → Stop run f reason decision
    → (ss : List LoopIterationSummary) (codes : List String)
    → kinds_logged (ss ++ record f.summary { gate_decision = decision; reason_codes = codes } ∷ [])
      ≡ kinds_logged ss
Stop-stops {f = f} {decision = stop_done} s ss codes =
    ap (λ cs. "loop.started" ∷ map kind_logged cs)
      (continued-snoc ss (record f.summary { gate_decision = stop_done; reason_codes = codes })
        ∙ append-nil (continued ss))
Stop-stops {f = f} {decision = stop_blocked} s ss codes =
    ap (λ cs. "loop.started" ∷ map kind_logged cs)
      (continued-snoc ss (record f.summary { gate_decision = stop_blocked; reason_codes = codes })
        ∙ append-nil (continued ss))
Stop-stops {decision = continue} s ss codes = elim s [ ]

-- A summary that goes on adds one event.
continue-logged :
    (ss : List LoopIterationSummary) (s : LoopIterationSummary)
    → went_on s ≡ true
    → kinds_logged (ss ++ s ∷ []) ≡ kinds_logged ss ++ "loop.iteration_completed" ∷ []
continue-logged ss s h =
    let one : continued (ss ++ s ∷ []) ≡ continued ss ++ s ∷ [] = continued-snoc ss s ∙ rw h refl in
    ap (λ cs. "loop.started" ∷ map kind_logged cs) one
    ∙ ap (λ ks. "loop.started" ∷ ks) (map-append kind_logged (continued ss) (s ∷ []))

module _ (to_lower_case sha256 : String → String) (redact : Json → Json)
    (input : OrchestratorInput) where
  record Before (left i : ℕ) (run : Run) : Type 0 where
    intact : Intact sha256 redact (kinds_logged run.iterations) run.ledger
    numbered : NumberedFrom 1 run.iterations
    following : suc (length run.iterations) ≡ i

  pub record After (run : Run) : Type 0 where
    pub intact : Intact sha256 redact (kinds_logged run.iterations) run.ledger
    pub numbered : NumberedFrom 1 run.iterations

  log-Intact :
      (l : StateLedger) (ks : List String) (now : ℕ) (type : String) (payload : Fields)
      → Intact sha256 redact ks l
      → Intact sha256 redact
          (ks ++ type ∷ [])
          (log to_lower_case sha256 redact input l now type payload)
  unfolding log event_of
  log-Intact l ks now type payload h =
      append-Intact sha256 redact l ks now (event_of input type payload) h

  keep :
      (start_time : ℕ) (loop_id : String) (during : ℕ → IterationEnv) (left i : ℕ) (run : Run)
      (flow : Flow)
      → Before (suc left) i run
      → Step to_lower_case sha256 redact input start_time loop_id i (during i) run flow
      → Gives After (Before left (suc i)) flow
  unfolding stopped_with with_summary recorded carry_on iteration_event event_of
  keep start_time loop_id during left i run flow b Step.aborts = record {
    intact = b.intact;
    numbered = b.numbered;
  }
  keep start_time loop_id during left i run flow b Step.times_out = record {
    intact = b.intact;
    numbered = b.numbered;
  }
  keep start_time loop_id during left i run flow b (Step.stops reason decision code f found s) =
      let n : f.summary.iteration ≡ i =
        find_out-iteration to_lower_case input i (during i) run f found in
      record {
        intact = rw (Stop-stops s run.iterations (code ∷ [])) b.intact;
        numbered =
            NumberedFrom-snoc 1 i run.iterations _ b.numbered n
              (let e = b.following in omega arith);
      }
  keep start_time loop_id during left i run flow b (Step.continues f found q p) =
      let n : f.summary.iteration ≡ i =
        find_out-iteration to_lower_case input i (during i) run f found in
      let grown =
        length-append run.iterations
          (record f.summary { gate_decision = continue; reason_codes = "CONTINUE" ∷ [] } ∷ []) in
      let e = b.following in
      record {
        intact =
            rw
              (continue-logged run.iterations
                (record f.summary { gate_decision = continue; reason_codes = "CONTINUE" ∷ [] })
                refl)
              (append-Intact sha256 redact run.ledger _ (during i).completed_at
                (iteration_event input loop_id i f) b.intact);
        numbered =
            NumberedFrom-snoc 1 i run.iterations _ b.numbered n
              (let e = b.following in omega arith);
        following = omega arith;
      }

  looped-After : (env : LoopEnv) → After (looped to_lower_case sha256 redact input env)
  unfolding looped started verify_chain empty
  looped-After env =
      iterate_from-Gives to_lower_case sha256 redact input env.start_time _ env.during Before After
        (λ i run b. record { intact = b.intact; numbered = b.numbered })
        (keep env.start_time _ env.during) input.policy.max_iterations 1
        (started to_lower_case sha256 redact input env)
        (record {
          intact = log-Intact empty [] env.start_time _ _ (refl, refl);
          numbered = tt;
          following = refl;
        })

  receipted-Intact :
      (env : LoopEnv) (run : Run) (ks : List String)
      → Intact sha256 redact ks run.ledger
      → Intact sha256 redact
          (ks ++ "receipt.written" ∷ [])
          (receipted to_lower_case sha256 redact input env run).0
  unfolding receipted
  receipted-Intact env run ks h = write_receipt-Intact sha256 redact _ _ _ run.ledger _ ks h

  -- A loop's ledger is an intact chain whatever the redaction does. Its events are, in this order, one
  -- for the start, one for each iteration after which the loop went on, one for the receipt and one
  -- for the end. The recorded iterations are numbered 1, 2, 3 and on.
  pub run_loop-history :
      (env : LoopEnv)
      → let r = run_loop to_lower_case sha256 redact input env in
        (verify_chain sha256 r.ledger ≡ true)
        × (kinds r.ledger
            ≡ kinds_logged r.metadata.iterations ++ "receipt.written" ∷ "loop.completed" ∷ [])
        × NumberedFrom 1 r.metadata.iterations
  unfolding run_loop finished
  run_loop-history env =
      let h = looped-After env in
      let run = looped to_lower_case sha256 redact input env in
      let ks = kinds_logged run.iterations in
      let logged = log-Intact _ _ _ "loop.completed" _ (receipted-Intact env run ks h.intact) in
      (
        logged.0,
        logged.1 ∙ append_assoc ks ("receipt.written" ∷ []) ("loop.completed" ∷ []),
        h.numbered,
      )
