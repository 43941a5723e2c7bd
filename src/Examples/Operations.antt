-- ===== src/Examples/Operations.antt =====
-- The theorems about crates/evm-state applied to small stores, answers and measurements.
use substreams_evm_state.Prelude.{
  ℕ, ◌≤◌, bytes_eq, if◌then◌else◌, Text, subst, ok-injective, some, zero, suc, ◌≡◌, true, false,
  List, [], ◌∷◌, Bytes, codes, arith, All, In, ok, err, out_of_fuel,
}
use substreams_evm_state.Json.{Json, index, as_array, is_true, get, find, as_str}
use substreams_evm_state.Json.Read.{string_field}
use substreams_evm_state.Retention.Keeps.{IsPlanned}
use substreams_evm_state.Retention.Ranked.{IsNewestFirst, IsRanked, plan-IsRanked}
use substreams_evm_state.Retention.Prune.{
  prune, IsWhole, prune-IsWhole, pruned_plan_kept, checkpoint_storage,
}
use substreams_evm_state.Capacity.Paths.{roots}
use substreams_evm_state.Capacity.Roots.{IsAntichain, IsCovered, roots-IsAntichain}
use substreams_evm_state.Capacity.Mounts.{IsMounted}
use substreams_evm_state.Capacity.Admission.{IsMeasured, IsServed, data_disks-IsMeasured}
use substreams_evm_state.Capacity.Scan.{
  Attempt, done, failed, docker, data_directory_scan, is_directory_changed, retry_scan,
}
use substreams_evm_state.Capacity.Retried.{IsRetried, retry_scan-IsRetried}
use substreams_evm_state.Capacity.Guard.{measured, no_samples}
use substreams_evm_state.Capacity.Sampled.{
  listed, IsStored, guard-admitted, IsCounted, IsTallied, tally_all-IsCounted,
}
use substreams_evm_state.Examples.Stores.{
  fields, id1, parse_json, stored, stored_plan, stored_plans, stored_keeps, full, paths, disk,
  container, measured_disks, disks_measured, sample, meter, store, required, events_path,
  guard_admits, tallied, sample_tallies,
}
use substreams_evm_state.Cursor.Final.{IsFinal, decode-IsFinal}
use substreams_evm_state.Cursor.Saved.{IsSaved, save_progress-IsSaved}
use substreams_evm_state.Header.Verified.{IsVerified, verify_header-IsVerified}
use substreams_evm_state.Frame.{decode_frame, decode_frame-frame}
use substreams_evm_state.Examples.Samples.{bytes}
use substreams_evm_state.Examples.Cursors.{
  seal, position, token_decodes, native_run, world, first_save, second_save, token_saves_again,
}
use substreams_evm_state.Examples.Headers.{
  codec, header_text, summary, expected_text, header_verifies, framed, message_frames,
}

-- The numbers of the blocks of the two checkpoints.
abbrev block : Text → ℕ
block id = if bytes_eq id id1 then 9 else 8

stored-IsNewestFirst : (rows : List Json) → stored.checkpoints ≡ ok rows → IsNewestFirst block rows
unfolding fields get find bytes_eq string_field as_str
stored-IsNewestFirst rows e = subst (IsNewestFirst block) (ok-injective e) (
  (
    (λ i j p q.
        subst (λ x. block j ≤ block x) (ok-injective p)
          (subst (λ x. block x ≤ block id1) (ok-injective q) (omega arith))),
    tt,
  ),
  (tt, tt),
)

plan-IsRanked_example :
    (planned : IsPlanned parse_json stored 1 stored_plan) × IsRanked block planned.records 1
      stored_plan
plan-IsRanked_example =
    plan-IsRanked parse_json block stored 1 stored_plan stored-IsNewestFirst stored_plans

prune-IsWhole_example : IsWhole full (prune 2 stored_plan.remove full)
prune-IsWhole_example = prune-IsWhole 2 stored_plan.remove full

pruned_plan_kept_example :
    prune 2 stored_plan.remove full checkpoint_storage id1 ≡ full checkpoint_storage id1
pruned_plan_kept_example =
    pruned_plan_kept parse_json stored 1 stored_plan 2 full checkpoint_storage id1 stored_plans
      stored_keeps

roots-IsAntichain_example :
    All (λ r. In r paths) (roots paths)
    × IsAntichain (roots paths)
    × All (IsCovered (roots paths)) paths
roots-IsAntichain_example = roots-IsAntichain paths

data_disks-IsMeasured_example :
    All (IsMeasured 50) (disk ∷ [])
    × All (IsServed measured_disks.paths) (disk ∷ [])
    × IsAntichain measured_disks.paths
    × ((listed : List Json) × (as_array (index container "Mounts") ≡ some listed)
        × All (IsMounted listed) measured_disks.paths)
data_disks-IsMeasured_example =
    data_disks-IsMeasured container (disk ∷ []) measured_disks disks_measured

abbrev changed : Attempt Bytes
changed = failed (
    docker
      (record { operation = data_directory_scan; timed_out = false; directory_changed = true }))

-- A scan whose directory changes twice.
abbrev twice_changed : ℕ → Attempt Bytes
twice_changed zero = changed
twice_changed (suc zero) = changed
twice_changed (suc (suc n)) = done (codes "7")

retry_scan-IsRetried_example :
    IsRetried is_directory_changed twice_changed zero (retry_scan twice_changed)
retry_scan-IsRetried_example = retry_scan-IsRetried twice_changed

guard-admitted_example :
    All (λ p. meter.contains p ≡ ok true) required
    × All (λ p. meter.contains p ≡ ok true) (listed events_path)
    × (meter.sample ≡ ok sample)
    × (is_true (index sample "admitted") ≡ true)
    × IsStored store events_path (measured sample (codes "start"))
guard-admitted_example =
    guard-admitted store meter required (codes "start") events_path sample guard_admits

tally_all-IsCounted_example :
    IsTallied 2 no_samples tallied × All (IsCounted 12) (ok sample ∷ err out_of_fuel ∷ [])
tally_all-IsCounted_example =
    tally_all-IsCounted (ok sample ∷ err out_of_fuel ∷ []) no_samples tallied tt (omega arith)
      sample_tallies

decode-IsFinal_example : IsFinal position
decode-IsFinal_example = decode-IsFinal seal (codes "abc") position token_decodes

save_progress-IsSaved_example : IsSaved world native_run first_save.1 second_save
save_progress-IsSaved_example =
    save_progress-IsSaved world native_run (ok tt) first_save.1 (codes "abd") second_save
      token_saves_again

verify_header-IsVerified_example : IsVerified codec header_text summary expected_text (bytes 32 1)
verify_header-IsVerified_example =
    verify_header-IsVerified codec header_text summary expected_text (bytes 32 1) header_verifies

decode_frame-frame_example : decode_frame (λ b. ok b) framed (codes "s2") ≡ ok (codes "ab")
decode_frame-frame_example =
    decode_frame-frame (λ b. ok b) (codes "ab") framed (codes "s2") message_frames
