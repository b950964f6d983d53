-- ===== src/Server/Opening.antt =====
-- The first start of a shard, on an empty file and a disk that works.
use software_course_project.Wal.Restart.{AllFit}
use mathlib.Core.Path.{subst}
use software_course_project.Prelude.{
  ◌&&◌, ℕ, ◌≡◌, ◌∙◌, refl, sym, ap, Bool, true, false, none, some, List, [], ◌∷◌, ◌++◌, String,
  string_eq, ok, arith, ◌==◌, ==_iff, if◌then◌else◌,
}
use software_course_project.Prelude.Int.{ℤ}
use software_course_project.Dict.{Dict, lookup, IsMap}
use software_course_project.Ledger.{new_ledger}
use software_course_project.Model.{committed, WalEntry, op_create_account}
use software_course_project.Wal.{open_wal, find_next_log_id, Wal, next_id, plain_entry, decode}
use software_course_project.Wal.Append.{Holds}
use software_course_project.Wal.Working.{
  IsWorking, logged, committed_entry, logged-IsWorking, logged-Holds, append_working,
  mark_committed_working,
}
use software_course_project.Recovery.{recover_entries}
use software_course_project.Recovery.Status.{any_entry, commits, aborts}
use software_course_project.Recovery.Balances.{created, touched}
use software_course_project.Recovery.Replayed.{committed_in, recover_entries-replayed}
use software_course_project.Recovery.Extension.{IsFresh, Belongs}
use software_course_project.Recovery.Ended.{prepares, remembered_as}
use software_course_project.Server.State.{ShardServer}
use software_course_project.Server.Accounts.{
  replay_log, log_initial, first_start, started, new_shard_server,
}
use software_course_project.Server.Durability.{IsFresh-Belongs}
use software_course_project.Server.Growth.{append_assoc}
use software_course_project.Server.Restart.{lookup-rebuild_seen, replay_log-Holds}
use software_course_project.Server.Settled.{IsSettled, view}
use software_course_project.Bank.{Bank, Bank-eq}

-- The records of the initial balances, from this log ID on.
abbrev initial_entries : ℕ → Dict String ℤ → List WalEntry
initial_entries n [] = committed_entry n "__init__" ∷ []
initial_entries n ((account_id, balance) ∷ rest) =
    plain_entry n "__init__" op_create_account account_id balance ∷ initial_entries (next_id n) rest

record Logs (initial : Dict String ℤ) (w : Wal) (es : List WalEntry) : Type 0 where
  w' : Wal
  done : log_initial initial w ≡ (ok tt, w')
  working : IsWorking w'
  holds : Holds w' (es ++ initial_entries w.next_log_id initial)
  same_fits : w'.fits ≡ w.fits

log_initial-Logs :
    (initial : Dict String ℤ) (w : Wal) (es : List WalEntry)
    → IsWorking w
    → Holds w es
    → AllFit w.fits (initial_entries w.next_log_id initial)
    → Logs initial w es
unfolding log_initial
log_initial-Logs [] w es working h (short, _) = record {
  w' = logged (committed_entry w.next_log_id "__init__") w;
  done = mark_committed_working w working "__init__";
  working = logged-IsWorking _ w working;
  holds = logged-Holds _ w short h;
  same_fits = refl;
}
log_initial-Logs ((a, b) ∷ rest) w es working h (short, shorts) =
    let e = plain_entry w.next_log_id "__init__" op_create_account a b in
    let later =
      log_initial-Logs rest (logged e w) (es ++ e ∷ []) (logged-IsWorking e w working)
        (logged-Holds e w short h) shorts in
    let written = append_working w working "__init__" op_create_account a b in
    record {
      w' = later.w';
      done =
          rw (ap (λ x. x.0) written, log_initial)
            (ap (λ x. log_initial rest x.1) written ∙ later.done);
      working = later.working;
      holds = subst (Holds later.w') (append_assoc es (e ∷ []) _) later.holds;
      same_fits = later.same_fits;
    }

initial_entries-Belongs :
    (n : ℕ) (initial : Dict String ℤ) → Belongs "__init__" (initial_entries n initial)
initial_entries-Belongs n [] = (refl, tt)
initial_entries-Belongs n (x ∷ rest) = (refl, initial_entries-Belongs (next_id n) rest)

initial_entries_marks :
    (t : String) (n : ℕ) (initial : Dict String ℤ)
    → (any_entry commits t (initial_entries n initial) ≡ (t == "__init__"))
      × (any_entry aborts t (initial_entries n initial) ≡ false)
      × (any_entry prepares t (initial_entries n initial) ≡ false)
initial_entries_marks t n [] = ground arith
initial_entries_marks t n (x ∷ rest) = ground (arith, initial_entries_marks t (next_id n) rest)

module _ (done : String → Bool) (ends : done "__init__" ≡ true) (k : String) where
  initial_entries-touched :
      (n : ℕ) (initial : Dict String ℤ) → touched done k (initial_entries n initial) ≡ false
  initial_entries-touched n [] = ground arith
  initial_entries-touched n (x ∷ rest) = ground (arith, initial_entries-touched (next_id n) rest)

  initial_entries-created :
      (n : ℕ) (initial : Dict String ℤ)
      → IsMap initial
      → created done k (initial_entries n initial) ≡ lookup k initial
  unfolding lookup
  initial_entries-created n [] h = ground arith
  initial_entries-created n ((a, b) ∷ rest) h =
      ground (arith, initial_entries-created (next_id n) rest h.1, ends, ==_iff k a)

-- The log of a shard that has just been started for the first time.
abbrev pub opening_entries : Dict String ℤ → List WalEntry
opening_entries [] = []
opening_entries (x ∷ rest) = initial_entries 0 (x ∷ rest)

abbrev empty_wal : (WalEntry → Bool) → Wal
empty_wal fits = record {
  fits = fits;
  lines = [];
  next_log_id = 0;
  writer_failed = false;
  disk = [];
}

abbrev has_any : Dict String ℤ → Bool
has_any [] = false
has_any (x ∷ rest) = true

record Opened (fits : WalEntry → Bool) (initial : Dict String ℤ) : Type 0 where
  w : Wal
  done : first_start initial (empty_wal fits) ≡ (ok tt, w)
  working : IsWorking w
  holds : Holds w (opening_entries initial)
  same_fits : w.fits ≡ fits

first_start-Opened :
    (fits : WalEntry → Bool) (initial : Dict String ℤ)
    → AllFit fits (opening_entries initial)
    → Opened fits initial
unfolding first_start decode
first_start-Opened fits [] short = record {
  w = empty_wal fits;
  done = refl;
  working = record { no_failures = refl; not_failed = refl };
  holds = record { decodes = refl; working = refl };
  same_fits = refl;
}
first_start-Opened fits (x ∷ rest) short =
    let l =
      log_initial-Logs (x ∷ rest) (empty_wal fits) []
        (record { no_failures = refl; not_failed = refl })
        (record { decodes = refl; working = refl }) short in
    record {
      w = l.w';
      done = l.done;
      working = l.working;
      holds = l.holds;
      same_fits = l.same_fits;
    }

-- The bank with these accounts, to which a shard that had initial balances adds the outcome of
-- their own transaction.
abbrev pub opening_bank : Dict String ℤ → Bank
opening_bank initial = record {
  balance = λ k. lookup k initial;
  outcome = λ t. if has_any initial && t == "__init__" then some committed else none;
}

opening_outcome :
    (initial : Dict String ℤ) (t : String)
    → remembered_as t (opening_entries initial) ≡ (opening_bank initial).outcome t
opening_outcome [] t = refl
opening_outcome (x ∷ rest) t =
    let (commit, abort, prepare) = initial_entries_marks t 0 (x ∷ rest) in
    rw (commit, abort, prepare) refl

opening-IsFresh :
    (initial : Dict String ℤ) (t : String)
    → remembered_as t (opening_entries initial) ≡ none
    → IsFresh t (opening_entries initial)
opening-IsFresh [] t unseen = tt
opening-IsFresh (x ∷ rest) t unseen =
    IsFresh-Belongs "__init__" t (initial_entries 0 (x ∷ rest))
      (initial_entries-Belongs 0 (x ∷ rest)) (ground (arith, opening_outcome (x ∷ rest) t))

opening_balance :
    (k : String) (initial : Dict String ℤ)
    → IsMap initial
    → lookup k (recover_entries (opening_entries initial) new_ledger).1.balances ≡ lookup k initial
unfolding lookup
opening_balance k [] h = recover_entries-replayed k [] new_ledger
opening_balance k (x ∷ rest) h =
    let es = initial_entries 0 (x ∷ rest) in
    let ends = (initial_entries_marks "__init__" 0 (x ∷ rest)).0 in
    recover_entries-replayed k es new_ledger
    ∙ rw
        (
          initial_entries-touched (committed_in es) ends k 0 (x ∷ rest),
          initial_entries-created (committed_in es) ends k 0 (x ∷ rest) h,
        )
        (ground arith)

-- A shard that is started on an empty file holds the initial balances.
pub record Starts (fits : WalEntry → Bool) (shard_id : String) (initial : Dict String ℤ)
    : Type 0 where
  pub first : ShardServer
  pub started_as : new_shard_server fits shard_id [] [] initial ≡ ok first
  pub settled_first : IsSettled first
  pub first_fits : first.wal_log.fits ≡ fits
  pub holds_initial : view first ≡ opening_bank initial

pub new_shard_server-Starts :
    (fits : WalEntry → Bool) (shard_id : String) (initial : Dict String ℤ)
    → IsMap initial
    → AllFit fits (opening_entries initial)
    → Starts fits shard_id initial
unfolding new_shard_server open_wal find_next_log_id
new_shard_server-Starts fits shard_id initial h short =
    let o = first_start-Opened fits initial short in
    let es = opening_entries initial in
    let l = (recover_entries es new_ledger).1 in
    let s = started shard_id o.w l (recover_entries es new_ledger).0 in
    let known : (t : String) → lookup t s.seen_txns ≡ remembered_as t es =
      λ t. lookup-rebuild_seen t es new_ledger in
    record {
      first = s;
      started_as =
          rw (ap (λ x. x.0) o.done, new_shard_server)
            (ap (λ x. replay_log shard_id x.1) o.done ∙ replay_log-Holds shard_id o.w o.holds);
      settled_first = record {
        durable = record {
          entries = es;
          recoverable = record {
            holds = o.holds;
            remembered = λ t unseen. opening-IsFresh initial t (sym (known t) ∙ unseen);
            agrees = λ k. refl;
          };
          alone = record { working = o.working; no_replicator = refl };
        };
        known = known;
      };
      first_fits = o.same_fits;
      holds_initial =
          Bank-eq (view s) (opening_bank initial) (λ k. opening_balance k initial h)
            (λ t. known t ∙ opening_outcome initial t);
    }
