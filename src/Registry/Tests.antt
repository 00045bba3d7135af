-- ===== src/Registry/Tests.antt =====
-- Ownerships and disputes of internal/registry, and the theorems at them.
use agentapi_doctor.Common.{
  ◌+◌, ◌≡◌, [], ◌∷◌, none, refl, ok, err, true, false, not, ltb, length, code_points, arith, ◌==◌,
  string_eq,
}
use agentapi_doctor.Registry.{
  Checks, Error, Principal, contains, has_scope, is_principal, is_reason, require_scope,
  authorize_owned,
}
use agentapi_doctor.Registry.Ownership.{
  Ownership, Challenge, pending, verified, dns_txt, is_method, is_expired, challenge_snapshot,
  is_current, ownership_from_challenge, is_nonce, new_challenge, verify, authorize_manage, transfer,
}
use agentapi_doctor.Registry.Control.{
  revokes, transfers, revoked_is_final, HandsOver, transfer-HandsOver, Proved, verify-Proved,
}
use agentapi_doctor.Registry.Control.{run as run_ownership}
use agentapi_doctor.Registry.Dispute.{
  Status, EventKind, Dispute, is_open, is_under_review, append_event, restore_dispute, new_dispute,
  add_owner_response, begin_review, authorize_reviewer, resolve,
}
use agentapi_doctor.Registry.Review.{
  responds, reviews, resolves, supersedes, StandardText, step, run,
}
use agentapi_doctor.Registry.Verdict.{Independent, verdict_is_final, run-new_dispute-Independent}
use agentapi_doctor.Registry.Restoration.{dispute_restores, backward_review_refused}
use agentapi_doctor.Registry.Ingest.{Session, prepare_ingest, commit, commit_digest, restore_ingest}
use agentapi_doctor.Registry.Upload.{
  stages, commits, validates, publishes, run-prepare_ingest-Inv, commit_replays,
}
use agentapi_doctor.Registry.Upload.{apply as apply_upload}
use agentapi_doctor.Registry.Upload.{run as run_upload}
use agentapi_doctor.Registry.Upload.{Inv as UploadInv}
use agentapi_doctor.Registry.Upload.{Moves as UploadMoves}
use agentapi_doctor.Registry.Purge.{
  Request, Reason, TargetStatus, new_purge, all_targets, active_store_purge_target,
}
use agentapi_doctor.Registry.Purge.{append_event as append_purge_event}
use agentapi_doctor.Registry.Purge.{is_reason as is_purge_reason}
use agentapi_doctor.Registry.Erasure.{starts, completes, run-new_purge-Inv}
use agentapi_doctor.Registry.Erasure.{run as run_purge}
use agentapi_doctor.Registry.Erasure.{Inv as PurgeInv}

abbrev checks : Checks
checks = record {
  is_instance = λ _. true;
  is_digest = λ s. not (s == "");
  is_subject = λ _. true;
  trim_space = λ s. s;
  byte_length = λ s. length (code_points s);
  is_control = λ c. ltb c 32;
}

abbrev owner : Principal
owner = record { id = "owner"; scopes = "ownership:manage" ∷ "dispute:create" ∷ [] }

abbrev heir : Principal
heir = record { id = "heir"; scopes = "ownership:manage" ∷ [] }

abbrev author : Principal
author = record { id = "author"; scopes = "dispute:create" ∷ [] }

abbrev judge : Principal
judge = record { id = "judge"; scopes = "moderation:review" ∷ [] }

abbrev owned : Ownership
owned = record {
  subject = "a/b";
  owner = "owner";
  method = dns_txt;
  evidence = "x";
  verified_at = 5;
  valid_until = 100;
  revoked_at = 0;
  reason = "";
}

abbrev challenge : Challenge
challenge = record {
  id = "c";
  subject = "a/b";
  requester = "heir";
  method = dns_txt;
  nonce = "n";
  expires_at = 50;
  status = pending;
  verified_at = 0;
  evidence_digest = "";
}

abbrev proven : Challenge
proven = record challenge { status = verified; verified_at = 20; evidence_digest = "y" }

abbrev inherited : Ownership
inherited = record {
  subject = "a/b";
  owner = "heir";
  method = dns_txt;
  evidence = "y";
  verified_at = 20;
  valid_until = 200;
  revoked_at = 0;
  reason = "";
}

transfer_accepted : (transfer checks owned owner proven 200 30).1 ≡ ok inherited
unfolding transfer authorize_manage authorize_owned require_scope is_principal contains has_scope
    is_current ownership_from_challenge challenge_snapshot is_expired
transfer_accepted = refl

revoked_is_final_example :
    let o = record owned { revoked_at = 7; reason = "gone" } in
    (run_ownership checks o (revokes owner "other" 9 ∷ transfers owner proven 200 30 ∷ []) ≡ o)
    × (is_current
          (run_ownership checks o (revokes owner "other" 9 ∷ transfers owner proven 200 30 ∷ []))
          10
        ≡ false)
revoked_is_final_example =
    revoked_is_final checks (record owned { revoked_at = 7; reason = "gone" })
      (revokes owner "other" 9 ∷ transfers owner proven 200 30 ∷ []) 10 (ground arith)

transfer-HandsOver_example :
    HandsOver checks owned (transfer checks owned owner proven 200 30).0 inherited owner proven 30
transfer-HandsOver_example =
    transfer-HandsOver checks owned owner proven 200 30 inherited transfer_accepted

challenge_made : new_challenge checks heir "c" "a/b" dns_txt "n" 50 10 ≡ ok challenge
unfolding new_challenge require_scope is_principal contains has_scope is_method is_nonce
challenge_made = refl

challenge_verified : verify checks challenge "y" 20 ≡ (proven, none)
unfolding verify is_expired
challenge_verified = refl

verify-Proved_example : Proved checks (verify checks challenge "y" 20).0 inherited
unfolding verify is_expired ownership_from_challenge challenge_snapshot
verify-Proved_example =
    verify-Proved checks heir "c" "a/b" dns_txt "n" 50 10 challenge "y" 20 200 30 inherited
      challenge_made refl (omega arith) refl

abbrev dispute : Dispute
dispute = record {
  id = "d";
  observation_id = "obs";
  subject = "a/b";
  creator = "author";
  subject_owner = "owner";
  reviewer = "";
  status = Status.opened;
  events =
      record {
        sequence = 1;
        kind = EventKind.opened;
        actor = "author";
        at = 10;
        statement = "wrong";
        replacement_id = "";
      }
      ∷ [];
}

dispute_opened : new_dispute checks author "d" "obs" "a/b" "owner" "wrong" 10 ≡ ok dispute
unfolding new_dispute require_scope is_principal contains has_scope is_reason append_event
dispute_opened = refl

resolved_status :
    (run checks dispute
      (responds owner owned "no" 11 ∷ reviews judge 12 ∷ resolves judge "yes" 13 ∷ [])).status
    ≡ Status.resolved
unfolding run step add_owner_response begin_review resolve authorize_reviewer authorize_manage
    authorize_owned require_scope is_principal contains has_scope is_reason append_event is_current
    is_open is_under_review
resolved_status = refl

verdict_is_final_example :
    run checks (record dispute { status = Status.resolved }) (reviews judge 12 ∷ [])
    ≡ record dispute { status = Status.resolved }
unfolding is_open is_under_review
verdict_is_final_example =
    verdict_is_final checks (record dispute { status = Status.resolved }) (reviews judge 12 ∷ [])
      refl

run-new_dispute-Independent_example : Independent (
    run checks dispute
      (responds owner owned "no" 11 ∷ reviews judge 12 ∷ supersedes judge "new" "yes" 13 ∷ []))
run-new_dispute-Independent_example =
    run-new_dispute-Independent checks author "d" "obs" "a/b" "owner" "wrong" 10 dispute
      (responds owner owned "no" 11 ∷ reviews judge 12 ∷ supersedes judge "new" "yes" 13 ∷ [])
      dispute_opened

standard : StandardText checks
standard = record { trims = refl; measures = refl; prints = λ c l h. ground arith }

dispute_restores_example :
    restore_dispute checks (
      run checks dispute
        (responds owner owned "no" 11 ∷ reviews judge 12 ∷ resolves judge "yes" 13 ∷ []))
    ≡ ok (
        run checks dispute
          (responds owner owned "no" 11 ∷ reviews judge 12 ∷ resolves judge "yes" 13 ∷ []))
dispute_restores_example =
    dispute_restores checks standard author "d" "obs" "a/b" "owner" "wrong" 10 dispute
      (responds owner owned "no" 11 ∷ reviews judge 12 ∷ resolves judge "yes" 13 ∷ [])
      dispute_opened (ground arith)

backward_review_refused_example :
    restore_dispute checks (begin_review checks dispute judge 9).0 ≡ err Error.invalid
unfolding begin_review require_scope is_principal contains has_scope is_open is_under_review
backward_review_refused_example =
    backward_review_refused checks dispute judge 9 refl refl (omega arith)

abbrev uploader : Principal
uploader = record { id = "up"; scopes = "observation:prepare" ∷ "observation:commit" ∷ [] }

abbrev upload : Session
upload = record {
  session_id = "s";
  owner = "up";
  expected_digest = "d";
  staged_digest = "";
  expires_at = 10;
  status = agentapi_doctor.Registry.Ingest.prepared;
  quarantine_class = "";
}

abbrev staged_upload : Session
staged_upload = record upload {
  staged_digest = "d";
  status = agentapi_doctor.Registry.Ingest.staged;
}

upload_prepared : prepare_ingest checks uploader "s" "d" 10 3 ≡ ok upload
unfolding prepare_ingest require_scope is_principal contains has_scope
upload_prepared = refl

run-prepare_ingest-Inv_example :
    let r = run_upload checks upload (stages uploader "d" 4 ∷ commits uploader "d" 5 ∷ []) in
    UploadInv checks r
    × UploadMoves checks r (apply_upload checks r validates).0 (apply_upload checks r validates).1
    × (restore_ingest checks r ≡ ok r)
run-prepare_ingest-Inv_example =
    run-prepare_ingest-Inv checks uploader "s" "d" 10 3 upload
      (stages uploader "d" 4 ∷ commits uploader "d" 5 ∷ []) validates upload_prepared

commit_accepted : (commit checks staged_upload uploader "d" 5).1 ≡ none
unfolding commit commit_digest authorize_owned require_scope is_principal contains has_scope
    is_expired
commit_accepted = refl

commit_replays_example :
    let r =
      run_upload checks
        (commit checks staged_upload uploader "d" 5).0
        (validates ∷ publishes ∷ []) in
    commit checks r uploader "d" 20 ≡ (r, none)
commit_replays_example =
    commit_replays checks staged_upload uploader "d" 5 20 (validates ∷ publishes ∷ [])
      commit_accepted

abbrev purge : Request
purge = record {
  event_id = "e";
  reason = Reason.pii;
  status = agentapi_doctor.Registry.Purge.requested;
  requested_at = 5;
  deadline = 5 + active_store_purge_target;
  completed_at = 0;
  targets = all_targets;
  events = record { sequence = 1; actor = "judge"; action = "requested"; target = ""; at = 5 } ∷ [];
}

purge_opened : new_purge checks judge "e" Reason.pii 5 ≡ ok purge
unfolding new_purge append_purge_event is_purge_reason require_scope is_principal contains has_scope
purge_opened = refl

run-new_purge-Inv_example :
    PurgeInv
      (run_purge checks purge (starts judge 6 ∷ completes judge "cdn" TargetStatus.purged 7 ∷ []))
run-new_purge-Inv_example =
    run-new_purge-Inv checks judge "e" Reason.pii 5 purge
      (starts judge 6 ∷ completes judge "cdn" TargetStatus.purged 7 ∷ []) purge_opened
