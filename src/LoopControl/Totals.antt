-- ===== src/LoopControl/Totals.antt =====
-- The totals that are recorded of a loop.
use avorelo.Common.{
  ◌+◌, String, ◌≡◌, refl, true, false, ◌||◌, List, [], ◌∷◌, all, filter, length, length-filter,
  arith, ◌==◌, is_empty, any,
}
use avorelo.DriftGuard.{is_block}
use avorelo.LoopControl.{CheckRun, passed, failed, not_run, skipped, status_eq, proved}
use avorelo.LoopControl.Metadata.{
  BuildLoopMetadataInput, asks_attention, is_in_scope, derive_proof_state, build_loop_metadata,
}

counts-add_up :
    (cs : List CheckRun)
    → length (filter (λ (c : CheckRun). c.result == passed) cs)
        + length (filter (λ (c : CheckRun). c.result == failed) cs)
        + length (filter (λ (c : CheckRun). c.result == not_run || c.result == skipped) cs)
      ≡ length cs
counts-add_up [] = omega arith
counts-add_up (c ∷ cs) = ground (arith, counts-add_up cs)

all-passed :
    (cs : List CheckRun)
    → all (λ (c : CheckRun). c.result == passed) cs ≡ true
    → length (filter (λ (c : CheckRun). c.result == passed) cs) ≡ length cs
all-passed [] h = refl
all-passed (c ∷ cs) h = ground (arith, all-passed cs)

derive_proof_state-proved :
    (i : BuildLoopMetadataInput)
    → derive_proof_state i.checks_run i.drift_summary i.stop_reason ≡ proved
    → (all (λ (c : CheckRun). c.result == passed) i.checks_run ≡ true)
      × (is_empty i.checks_run ≡ false)
      × (asks_attention i.stop_reason ≡ false)
      × (any is_block i.drift_summary ≡ false)
unfolding derive_proof_state
derive_proof_state-proved i h = (ground arith, ground arith, ground arith, ground arith)

-- In the metadata of a loop the files in and out of scope add up to the changed files, and the checks
-- passed, failed and not run to the checks; and a loop recorded as proved had checks, all of which
-- passed, no finding of severity block and no stop that asks for attention.
pub build_loop_metadata-totals :
    (now : String) (i : BuildLoopMetadataInput)
    → let m = build_loop_metadata now i in
      (m.files_changed_in_scope + m.files_changed_out_of_scope ≡ length i.files_changed)
      × (m.checks_passed + m.checks_failed + m.checks_not_run ≡ length i.checks_run)
      × (m.proof_state ≡ proved
          → (m.checks_passed ≡ length i.checks_run)
            × (is_empty i.checks_run ≡ false)
            × (asks_attention i.stop_reason ≡ false)
            × (any is_block i.drift_summary ≡ false))
unfolding build_loop_metadata
build_loop_metadata-totals now i =
    let fewer =
      length-filter (λ f. is_in_scope f i.allowed_paths i.disallowed_paths) i.files_changed in
    (
      omega arith,
      counts-add_up i.checks_run,
      λ h. let (a, e, s, b) = derive_proof_state-proved i h in (all-passed i.checks_run a, e, s, b),
    )
