-- ===== src/Lib.antt =====
-- Pulse Agent watches Docker services, opens incidents, and runs registered recovery actions
-- under a policy. This library models the core of the recovery path and states what it
-- guarantees.
--
-- Parts and files (paths from the repository's root):
-- - Prelude: numbers, texts, integers, and the Result type with the packages' sentinel errors
--   (internal/*: the Err values, one constructor each).
-- - Contract (internal/contract/contracts.go): the enumerations and records the packages share,
--   CanTransitionTo and ValidateTransition of incidents and of recovery commands, and the
--   Validate methods. An enumeration has one more constructor for any other text that JSON may
--   hold.
-- - Policy (internal/policy/policy.go): Evaluate as `evaluate`. `contains` keeps its sort and
--   its bisection; the loop's fuel is the length of the list, more than the bisection halves.
-- - Store (internal/store/store.go): transactions over the interface `Bolt`, a record of what
--   the store relies on of bbolt. Update rolls back on an error of the callback or of the
--   commit.
-- - Recovery (internal/recovery): `Types`, `Keys`, `Record`, `Transitions` and `Journal` are
--   journal.go; `Coordinator` is coordinator.go. Each closure that updateRecord is given is a
--   function from a record to a Result. `Approval` is approval.go: Decide plans what to do from
--   one reading of the store, then appends the audit event and the change in one transaction;
--   the event ID and the time of the event are asked for before that transaction begins;
--   `Source` is ApprovalStateSource.Load.
-- - Stabilization (internal/stabilization/verifier.go): one attempt after an executed action;
--   `verify` takes one sample and the functions after_... are its parts.
-- - Audit (internal/audit/chain.go): `append` is Append, `read_chain` is readChain, whose
--   callback is `read_event`; `event_key` is the key's twenty decimal digits.
-- - Delivery (internal/delivery/delivery.go): `Options` holds New and backoff, `Queue` the
--   transactions on the queue's bucket, `Dispatch` Enqueue and the ends of an item, `Rounds`
--   deliverOne and DeliverDue. The loop of backoff recurs on the rounds that its counter allows.
-- - Scenarios: a database in a list, codecs, dependencies and a request, with tests and with the
--   theorems at concrete inputs.
--
-- How they interact: every package reads and writes through the transactions of Store, and Audit
-- appends its event in the transaction of the change that it records, as Delivery does when an
-- item expires or fails. Submit asks the policy for a verdict, persists the command in the
-- journal and hands it to execute, which asks again just before the Docker adapter is called,
-- and writes every phase to the journal first. The coordinator's functions are written as state
-- passing on a `World`: the store, the state of everything outside, and the calls of
-- Adapter.Execute with the store as it stood at each. The dependencies (adapter, state source,
-- clock, publisher, ID generator) are arbitrary functions on the outside state, so none of them
-- reads or writes the store: a state source, publisher, finalizer or retry source that shares
-- the store, as in the assembled program, is outside this model. SHA-256 and JSON are
-- parameters, with contract.Decode (internal/contract/decode.go) up to its validation step; of
-- them a codec assumes that a document within the size limit decodes to what was encoded.
--
-- Time is a number of nanoseconds, 0 for Go's zero time; int values are integers; `inc` wraps at
-- the largest int64, as `x + 1` does; time.Sub stops at the largest int64. A map is an
-- association list and a nil pointer is none.
--
-- Not modelled: telemetry calls, the nil tests of receivers and contexts, cancellation outside
-- Delivery, error wrapping texts, the routing of delivery payload sources, and locking (bbolt
-- runs one writing transaction at a time). The other packages of the repository are outside this
-- library.
pub mod Prelude
pub mod Contract
pub mod Policy
pub mod Store
pub mod Recovery
pub mod Stabilization
pub mod Audit
pub mod Delivery
pub mod Scenarios
