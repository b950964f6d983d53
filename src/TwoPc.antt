-- ===== src/TwoPc.antt =====
-- coordinator/twopc/coordinator.go: the coordinator of the two-phase commit of Algorithm 2, and what
-- the network does to its requests.
use software_course_project.Prelude.{
  ℕ, zero, suc, ◌≡◌, Bool, true, false, ◌&&◌, Option, none, some, List, [], ◌∷◌, String, Result, ok,
  err, if◌then◌else◌,
}
use software_course_project.Prelude.Int.{ℤ}
use software_course_project.Model.{
  Transaction, TransactionResult, committed_on_all_shards, shards_rejected, TransactionState,
  committed, aborted, OperationType, op_debit, op_credit,
}
use software_course_project.Server.State.{ShardServer, Reply}
use software_course_project.Server.TwoPhase.{
  prepare_transaction, commit_transaction, abort_transaction,
}
pub mod Retry
pub mod Atomic
pub mod Others
pub mod Reuse
pub mod Repeat
pub mod Progress
mod Tests

-- What happens to one HTTP request of the client: it and its answer arrive, it is lost on the way, or
-- the shard serves it and the answer is lost.
pub data Delivery : Type 0 where
  delivered request_lost reply_lost : Delivery

-- A shard behind the network; past the end of the schedule every request arrives.
pub record Remote : Type 0 where
  pub server : ShardServer
  pub network : List Delivery

abbrev pub answered : {E : Type 0} → Result E (Unit {0}) → Bool
answered (ok _) = true
answered (err _) = false

-- Does the client's method return nil?
unfoldable pub call : (ShardServer → Reply (Unit {0})) → Remote → Bool × Remote
call request r =
    let (answer, served) = request r.server in
    elim r.network [
      | [] ↦ (answered answer, record r { server = served })
      | delivered ∷ rest ↦ (answered answer, record { server = served; network = rest })
      | request_lost ∷ rest ↦ (false, record r { network = rest })
      | reply_lost ∷ rest ↦ (false, record { server = served; network = rest })
    ]

abbrev pub answer_of : {A : Type 0} → Reply A → Option A
answer_of (ok a, s) = some a
answer_of (err e, s) = none

-- What the client's method returns, with none for any error.
unfoldable pub call_for : {A : Type 0} → (ShardServer → Reply A) → Remote → Option A × Remote
call_for request r =
    let reply = request r.server in
    elim r.network [
      | [] ↦ (answer_of reply, record r { server = reply.1 })
      | delivered ∷ rest ↦ (answer_of reply, record { server = reply.1; network = rest })
      | request_lost ∷ rest ↦ (none, record r { network = rest })
      | reply_lost ∷ rest ↦ (none, record { server = reply.1; network = rest })
    ]

-- `commitWithRetry` with `n` attempts left; true when it returns nil.
unfoldable pub commit_attempts : ℕ → String → OperationType → String → ℤ → Remote → Bool × Remote
commit_attempts zero txn_id op_type account_id amount r = (false, r)
commit_attempts (suc n) txn_id op_type account_id amount r =
    let (nil, r') = call (commit_transaction txn_id op_type account_id amount) r in
    let later = commit_attempts n txn_id op_type account_id amount r' in
    if nil then (true, r') else later

unfoldable pub commit_with_retry : String → OperationType → String → ℤ → Remote → Bool × Remote
commit_with_retry = commit_attempts 3

-- The two remotes, the source's first.
abbrev pub Shards : Type 0
Shards = Remote × Remote

-- The two requests touch different shards, so their order is of no account.
unfoldable pub send_prepares : Transaction → Shards → (Bool × Bool) × Shards
send_prepares txn shards =
    let (source_prepared, source') =
      call (prepare_transaction txn.txn_id op_debit txn.source txn.amount) shards.0 in
    let (dest_prepared, dest') =
      call (prepare_transaction txn.txn_id op_credit txn.destination txn.amount) shards.1 in
    ((source_prepared, dest_prepared), (source', dest'))

-- A commit that fails after its retries is only logged.
unfoldable pub commit_all : Transaction → Shards → TransactionResult × Shards
commit_all txn shards = (
  record { txn_id = txn.txn_id; state = committed; message = committed_on_all_shards },
  (
    (commit_with_retry txn.txn_id op_debit txn.source txn.amount shards.0).1,
    (commit_with_retry txn.txn_id op_credit txn.destination txn.amount shards.1).1,
  ),
)

unfoldable pub abort_all : Transaction → Bool → Bool → Shards → TransactionResult × Shards
abort_all txn source_prepared dest_prepared shards =
    let abort_source =
      call (abort_transaction txn.txn_id op_debit txn.source txn.amount) shards.0 in
    let abort_dest =
      call (abort_transaction txn.txn_id op_credit txn.destination txn.amount) shards.1 in
    (
      record { txn_id = txn.txn_id; state = aborted; message = shards_rejected },
      (
        if source_prepared then abort_source.1 else shards.0,
        if dest_prepared then abort_dest.1 else shards.1,
      ),
    )

unfoldable pub execute : Transaction → Shards → TransactionResult × Shards
execute txn shards =
    let ((source_prepared, dest_prepared), shards') = send_prepares txn shards in
    if source_prepared && dest_prepared
    then commit_all txn shards'
    else abort_all txn source_prepared dest_prepared shards'
