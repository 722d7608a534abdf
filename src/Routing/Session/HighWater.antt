-- ===== src/Routing/Session/HighWater.antt =====
-- What any run of the operations of session-memory.ts leaves of the high-water profile.
use avorelo.Common.{
  ◌++◌, if◌then◌else◌, sym, ◌∙◌, ℕ, ◌+◌, ◌≤◌, ◌<◌, String, ◌≡◌, refl, ◌↔◌, true, List, [], ◌∷◌,
  arith, ltb,
}
use avorelo.Routing.Types.{ModelProfile, no_model}
use avorelo.Routing.Session.{
  profile_rank, RouteSessionMemory, Escalation, create_route_session, request_profile_change,
  record_sensitive_surface,
}

pub data Op : Type 0 where
  request : ModelProfile → String → Op
  touch : String → Op

pub step : RouteSessionMemory → Op → RouteSessionMemory
unfolding request_profile_change record_sensitive_surface
step m (request profile reason) = (request_profile_change m profile reason).1
step m (touch surface) = record_sensitive_surface m surface

unfoldable pub run : List Op → RouteSessionMemory → RouteSessionMemory
unfolding step
run [] m = m
run (op ∷ ops) m = run ops (step m op)

-- The escalations lead from one profile to another, each to a profile of higher rank.
abbrev pub Climbs : List Escalation → ModelProfile → ModelProfile → Type 0
Climbs [] a b = a ≡ b
Climbs (e ∷ es) a b = (e.old ≡ a) × (profile_rank e.old < profile_rank e.next) × Climbs es e.next b

Climbs-snoc :
    (es : List Escalation) (a b : ModelProfile) (e : Escalation)
    → Climbs es a b
    → e.old ≡ b
    → profile_rank e.old < profile_rank e.next
    → Climbs (es ++ e ∷ []) a e.next
Climbs-snoc [] a b e h s l = (s ∙ sym h, l, refl)
Climbs-snoc (x ∷ es) a b e h s l = (h.0, h.1, Climbs-snoc es x.next b e h.2 s l)

-- The greatest rank among the requests.
abbrev pub top_rank : ℕ → List Op → ℕ
top_rank n [] = n
top_rank n (request profile reason ∷ ops) =
    top_rank (if ltb n (profile_rank profile) then profile_rank profile else n) ops
top_rank n (touch surface ∷ ops) = top_rank n ops

rank-injective : (a b : ModelProfile) → profile_rank a ≡ profile_rank b → a ≡ b
rank-injective a b e = ground arith

step-rank :
    (m : RouteSessionMemory) (op : Op) (ops : List Op)
    → top_rank (profile_rank m.high_water_profile) (op ∷ ops)
      ≡ top_rank (profile_rank (step m op).high_water_profile) ops
unfolding step request_profile_change record_sensitive_surface
step-rank m (request profile reason) ops = ground arith
step-rank m (touch surface) ops = ground arith

-- After any run of requests the high-water profile has the greatest rank of all the profiles asked
-- for and the one at the start: it never falls, and it rises no further than was asked.
pub run-high_water :
    (ops : List Op) (m : RouteSessionMemory)
    → profile_rank (run ops m).high_water_profile ≡ top_rank (profile_rank m.high_water_profile) ops
unfolding run
run-high_water [] m = refl
run-high_water (op ∷ ops) m = run-high_water ops (step m op) ∙ sym (step-rank m op ops)

-- A request is granted exactly when it ranks no lower than the high-water profile; the profile in
-- the answer is the high-water profile afterwards, also when the request is refused, and what is refused is counted.
pub request_profile_change_lem :
    (m : RouteSessionMemory) (profile : ModelProfile) (reason : String)
    → let r = request_profile_change m profile reason in
      ((r.0.allowed ≡ true) ↔ (profile_rank m.high_water_profile ≤ profile_rank profile))
      × (r.0.profile ≡ r.1.high_water_profile)
      × (r.1.downgrade_attempts
          ≡ (if r.0.allowed then m.downgrade_attempts else m.downgrade_attempts + 1))
unfolding request_profile_change
request_profile_change_lem m profile reason =
    let same = rank-injective profile m.high_water_profile in ground arith

IsClimbed : RouteSessionMemory → Type 0
IsClimbed m = Climbs m.escalation_history no_model m.high_water_profile

step-IsClimbed : (m : RouteSessionMemory) (op : Op) → IsClimbed m → IsClimbed (step m op)
unfolding IsClimbed step request_profile_change record_sensitive_surface
step-IsClimbed m (request profile reason) h =
    let e : Escalation = record { old = m.high_water_profile; next = profile; reason = reason } in
    let raised = Climbs-snoc m.escalation_history no_model m.high_water_profile e h refl in
    ground arith
step-IsClimbed m (touch surface) h = ground arith

run-IsClimbed : (ops : List Op) (m : RouteSessionMemory) → IsClimbed m → IsClimbed (run ops m)
unfolding run
run-IsClimbed [] m h = h
run-IsClimbed (op ∷ ops) m h = run-IsClimbed ops (step m op) (step-IsClimbed m op h)

-- In a session the recorded escalations lead from `none` to the present high-water profile, each
-- starting where the one before ended and each to a profile of higher rank.
pub run-escalations :
    (id : String) (ops : List Op)
    → let m = run ops (create_route_session id) in
      Climbs m.escalation_history no_model m.high_water_profile
unfolding IsClimbed create_route_session
run-escalations id ops = run-IsClimbed ops (create_route_session id) refl
