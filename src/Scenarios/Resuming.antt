-- ===== src/Scenarios/Resuming.antt =====
-- Resume at a concrete input: a stored record that waits for an approval and has one.
use Prim.Native.String.{len}
use pulse_agent.Prelude.{
  ◌≤◌, String, ◌≡◌, refl, sym, ap, ◌∙◌, inl, inr, Option, none, some, ◌==◌, eq_iff, length,
  if◌then◌else◌, Bool-cases, arith,
}
use pulse_agent.Prelude.Result.{Result, ok, err, invalid_contract}
use pulse_agent.Recovery.Types.{JournalRecord, Codec, phase_awaiting_approval}
use pulse_agent.Recovery.Coordinator.Deps.{World}
use pulse_agent.Recovery.Coordinator.Restart.{resume}
use pulse_agent.Recovery.Coordinator.Resumption.{ResumedOnce, resume-one_call}
use pulse_agent.Scenarios.Memory.{memory}
use pulse_agent.Scenarios.Samples.{
  no_hash, marshal_sample, decode_sample, decode-marshal_sample, marshal_sample-len, sample_deps,
  sample_world,
}
use pulse_agent.Scenarios.Tests.{coordinator_open}

abbrev with_approval_id : String → JournalRecord → JournalRecord
with_approval_id id r = record r { command = record r.command { approval_id = id } }

-- The documents of the sample records stand for the same records with an approval ID.
unfoldable marshal_approved : JournalRecord → Result String
marshal_approved r =
    if r.command.approval_id == "approval-1"
    then marshal_sample (with_approval_id "" r)
    else err invalid_contract

approved_of : Option JournalRecord → Option JournalRecord
approved_of none = none
approved_of (some r) = some (with_approval_id "approval-1" r)

unfoldable decode_approved : String → Option JournalRecord
unfolding approved_of
decode_approved s = approved_of (decode_sample s)

-- What has a document has the approval ID, and a sample's document without it.
marshal_approved-ok :
    (r : JournalRecord) (d : String)
    → marshal_approved r ≡ ok d
    → (r.command.approval_id ≡ "approval-1") × (marshal_sample (with_approval_id "" r) ≡ ok d)
marshal_approved-ok r d h = elim (Bool-cases (r.command.approval_id == "approval-1")) [
  | inl e ↦ (
    (eq_iff r.command.approval_id "approval-1").0 e,
    unfold marshal_approved in ground (arith, e, h),
  )
  | inr e ↦ absurd (unfold marshal_approved in ground (arith, e, h))
]

decode-marshal_approved :
    (r : JournalRecord) (d : String)
    → marshal_approved r ≡ ok d
    → len d ≤ 65536
    → decode_approved d ≡ some r
unfolding decode_approved approved_of
decode-marshal_approved r d h fits =
    let (id, m) = marshal_approved-ok r d h in
    ap approved_of (decode-marshal_sample (with_approval_id "" r) d m fits)
    ∙ ap (λ x. some (with_approval_id x r)) (sym id)

marshal_approved-len : (r : JournalRecord) (d : String) → marshal_approved r ≡ ok d → len d ≤ 65536
marshal_approved-len r d h =
    marshal_sample-len (with_approval_id "" r) d (marshal_approved-ok r d h).1

abbrev approved_codec : Codec JournalRecord
approved_codec = record {
  limit = 65536;
  marshal = marshal_approved;
  decode = decode_approved;
  decode-marshal = decode-marshal_approved;
}

abbrev after_resume : World memory sample_deps
after_resume =
    (resume memory no_hash approved_codec sample_deps "command-1"
      (sample_world phase_awaiting_approval)).1

resumes : length after_resume.calls ≡ 1
unfolding coordinator_open marshal_approved decode_approved approved_of
resumes = refl

resume-one_call_example :
    ResumedOnce memory no_hash approved_codec sample_deps "command-1"
      (sample_world phase_awaiting_approval)
      after_resume.calls
resume-one_call_example =
    resume-one_call memory no_hash approved_codec sample_deps marshal_approved-len "command-1"
      (sample_world phase_awaiting_approval)
