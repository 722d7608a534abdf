-- ===== src/Routing/Session.antt =====
-- kernel/model-routing/session-memory.ts: the memory of one session's route. The memory is passed in
-- and given back with the answer.
pub mod HighWater
use avorelo.Common.{
  ℕ, ◌+◌, String, Bool, true, false, List, [], ◌∷◌, ◌++◌, ltb, contains, string_eq, if◌then◌else◌,
  ◌&◌,
}
use avorelo.Routing.Types.{
  ModelProfile, no_model, cheap_classification, standard_synthesis, high_reasoning, code_generation,
  security_sensitive_review, privacy_sensitive_summary, fallback_only,
}

abbrev pub profile_rank : ModelProfile → ℕ
profile_rank no_model = 0
profile_rank cheap_classification = 1
profile_rank fallback_only = 2
profile_rank standard_synthesis = 3
profile_rank privacy_sensitive_summary = 4
profile_rank code_generation = 5
profile_rank high_reasoning = 6
profile_rank security_sensitive_review = 7

-- The profile as it is written in a reason.
abbrev profile_text : ModelProfile → String
profile_text no_model = "none"
profile_text cheap_classification = "cheap_classification"
profile_text fallback_only = "fallback_only"
profile_text standard_synthesis = "standard_synthesis"
profile_text privacy_sensitive_summary = "privacy_sensitive_summary"
profile_text code_generation = "code_generation"
profile_text high_reasoning = "high_reasoning"
profile_text security_sensitive_review = "security_sensitive_review"

pub record Escalation : Type 0 where
  pub old : ModelProfile
  pub next : ModelProfile
  pub reason : String

pub record RouteSessionMemory : Type 0 where
  pub session_id : String
  pub high_water_profile : ModelProfile
  pub escalation_history : List Escalation
  pub sensitive_surfaces_touched : List String
  pub downgrade_attempts : ℕ

pub create_route_session : String → RouteSessionMemory
create_route_session id = record {
  session_id = id;
  high_water_profile = no_model;
  escalation_history = [];
  sensitive_surfaces_touched = [];
  downgrade_attempts = 0;
}

pub record UpgradeResult : Type 0 where
  pub allowed : Bool
  pub profile : ModelProfile
  pub was_escalation : Bool
  pub reason : String

abbrev count_attempt : RouteSessionMemory → RouteSessionMemory
count_attempt m = record m { downgrade_attempts = m.downgrade_attempts + 1 }

abbrev raise : RouteSessionMemory → ModelProfile → String → RouteSessionMemory
raise m requested reason = record m {
  high_water_profile = requested;
  escalation_history =
      m.escalation_history
      ++ record { old = m.high_water_profile; next = requested; reason = reason } ∷ [];
}

abbrev answer : Bool → ModelProfile → Bool → String → UpgradeResult
answer ok profile escalated reason = record {
  allowed = ok;
  profile = profile;
  was_escalation = escalated;
  reason = reason;
}

pub request_profile_change :
    RouteSessionMemory → ModelProfile → String → UpgradeResult × RouteSessionMemory
request_profile_change m requested reason =
    if ltb (profile_rank requested) (profile_rank m.high_water_profile)
    then (
      answer false m.high_water_profile false (
          "downgrade_blocked: "
          & profile_text requested
          & " < "
          & profile_text m.high_water_profile),
      count_attempt m,
    )
    else if ltb (profile_rank m.high_water_profile) (profile_rank requested)
    then (answer true requested true reason, raise m requested reason)
    else (answer true requested false "no_change", m)

pub can_downgrade : RouteSessionMemory → Bool
can_downgrade m = false

pub record_sensitive_surface : RouteSessionMemory → String → RouteSessionMemory
record_sensitive_surface m surface =
    if contains m.sensitive_surfaces_touched surface
    then m
    else record m { sensitive_surfaces_touched = m.sensitive_surfaces_touched ++ surface ∷ [] }
