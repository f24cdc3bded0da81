-- ===== src/Examples/Store.antt =====
-- The repositories on SQLite: a signer is registered, an action prepared, submitted once, and its
-- lease claimed.
use hyper_trader.Examples.Computed.{computed}
use hyper_trader.Common.{
  count_if, ℕ, ◌≡◌, ◌≤◌, ◌<◌, arith, ◌≢◌, ◌⊎◌, refl, true, false, String, Option, none, some, [],
  ◌∷◌, List, pos, Number, Result, ok, err, is_ok, natural,
}
use hyper_trader.Json.{Fields, obj, field, num, done}
use hyper_trader.Nonces.{ClockGateInput}
use hyper_trader.Journal.{
  PreparedActionRecord, JournalState, prepared, submission_started, abandoned_before_submission,
  limit_order, assert_journal_transition, restart_recovery_decision,
}
use hyper_trader.Journal.States.{
  Reach, Passes, here, next, IsSafeRecovery, Reach-terminal, Reach-submission_started,
  Reach-ne-unsubmitted, restart_recovery_decision-IsSafeRecovery,
}
use hyper_trader.Signing.{SignerBinding, normalize_signer_binding}
use hyper_trader.Persistence.Tables.{Database, active, find_action, has_id}
use hyper_trader.Persistence.Actions.{Repository, set_started}
use hyper_trader.Persistence.Leases.{ReconciliationLease, Claim, claim_lease, claim_next, set_lease}
use hyper_trader.Persistence.Signers.{
  register_active_signer, External, AtomicActionReservationInput, PreparedActionInput, reserve,
  prepared_row,
}
use hyper_trader.Persistence.Calls.{
  Call, register, prepare, mark, restart, recover, run, submissions,
}
use hyper_trader.Persistence.History.{submissions-past, submissions-at_most_once}
use hyper_trader.Persistence.Issuance.{IsIssued, reserve-IsIssued}
use hyper_trader.Persistence.Registered.{
  IsActiveScope, IsUnretired, register_active_signer-IsActiveScope,
}
use hyper_trader.Persistence.Holding.{IsElsewhere, claim_lease-held, claim_next-held}
use hyper_trader.Persistence.Progress.{is_past_prepared}

abbrev agent : String
agent = "0xcccccccccccccccccccccccccccccccccccccccc"

abbrev hash : String
hash = "0xdddddddddddddddddddddddddddddddddddddddddddddddddddddddddddddddd"

-- Addresses are read as they are written, every text has one hash, and the context is current.
abbrev pub external : External
external = record {
  get_address = λ a. some a;
  keccak_text = λ _. hash;
  keccak_json = λ _. hash;
  commit_if_current = λ _ _. ok tt;
}

abbrev pub binding : SignerBinding
binding = record {
  network = "testnet";
  master_account = "0xaaaaaaaaaaaaaaaaaaaaaaaaaaaaaaaaaaaaaaaa";
  target_account = "0xbbbbbbbbbbbbbbbbbbbbbbbbbbbbbbbbbbbbbbbb";
  agent_address = agent;
  generation = pos 1;
}

abbrev pub clock : ClockGateInput
clock = record {
  wall_time_ms = pos 1_000_000;
  monotonic_time_ms = pos 5_000;
  server_time_ms = pos 999_000;
  server_sampled_at_monotonic_ms = pos 4_000;
  last_observed_wall_ms = none;
}

abbrev intent : Fields
intent = field "asset" (num (pos 3)) done

abbrev pub id : String
id = "jrnl_00000000000000000000000000000001"

abbrev pub action : PreparedActionInput
action = record {
  journal_id = id;
  correlation_id = "act_00000000000000000000000000000001";
  fields = record {
    action_type = limit_order;
    intent_version = pos 1;
    cloid = some "0x00000000000000000000000000000001";
    asset_id = some (pos 3);
    target_oid = none;
    reconciliation_key = "order:1";
  };
  normalized_secret_free_intent = obj intent;
  intent_digest = hash;
  equivalence_fingerprint = hash;
}

abbrev pub reservation : AtomicActionReservationInput
reservation = record {
  binding = binding;
  captured_context_epoch = pos 0;
  clock = clock;
  prepared_action = action;
}

abbrev pub empty : Repository
empty = record {
  database = record { actions = []; scopes = []; tombstones = [] };
  prepared_in_this_process = [];
}

-- The action is submitted, again, and once more by the next process, after recovery.
abbrev calls : List Call
calls =
    register binding (pos 1)
    ∷ prepare reservation
    ∷ mark id (pos 1_000_100)
    ∷ mark id (pos 1_000_200)
    ∷ restart
    ∷ recover (pos 1_000_300)
    ∷ mark id (pos 1_000_400)
    ∷ []

submits_once : submissions external id calls empty ≡ 1
unfolding computed
submits_once = refl

past : is_past_prepared id (run external calls empty).database ≡ true
unfolding computed
past = refl

submissions-past_example :
    submissions external id (mark id (pos 1_000_500) ∷ []) (run external calls empty) ≡ 0
submissions-past_example =
    submissions-past external id (mark id (pos 1_000_500) ∷ []) (run external calls empty) past

submissions-at_most_once_example : submissions external id calls empty ≤ 1
submissions-at_most_once_example = submissions-at_most_once external id calls empty

-- A result that is known to be one.
value_of {ℓ} : {A : Type ℓ} (m : Result A) → is_ok m ≡ true → (a : A) × (m ≡ ok a)
value_of (ok a) h = (a, refl)
value_of (err e) h = cc

abbrev scoped : Database
scoped = record {
  actions = [];
  scopes =
      record {
        network = "testnet";
        agent_address = agent;
        master_account = binding.master_account;
        target_account = binding.target_account;
        signer_generation = 1;
        status = active;
        last_issued_nonce = some 1_000_400;
        last_observed_wall_ms = none;
        activated_at = 1;
        updated_at = 1;
      }
      ∷ [];
  tombstones = [];
}

reserves : is_ok (reserve external binding 0 clock action intent scoped) ≡ true
unfolding computed
reserves = refl

abbrev issued :
    (a : PreparedActionRecord × Database) × (reserve external binding 0 clock action intent scoped
      ≡ ok a)
issued = value_of (reserve external binding 0 clock action intent scoped) reserves

reserve-IsIssued_example : IsIssued binding scoped issued.0.0 issued.0.1
reserve-IsIssued_example =
    reserve-IsIssued external binding 0 clock action intent scoped issued.0.0 issued.0.1 issued.1

registers : is_ok (register_active_signer external binding (pos 1) empty.database) ≡ true
unfolding computed
registers = refl

abbrev registered :
    (a : Unit {0} × Database) × (register_active_signer external binding (pos 1) empty.database
      ≡ ok a)
registered = value_of (register_active_signer external binding (pos 1) empty.database) registers

register_active_signer-IsActiveScope_example :
    (found : SignerBinding) × (normalize_signer_binding external.get_address binding ≡ ok found)
    × IsUnretired external found empty.database
    × IsActiveScope found registered.0.1
register_active_signer-IsActiveScope_example =
    register_active_signer-IsActiveScope external binding (pos 1) empty.database registered.0.1
      registered.1

-- The action after its submission has started, with a lease until 1,030,000.
abbrev pub held : PreparedActionRecord
held = set_lease "device-0001" 1_030_000 1_000_200 (
    set_started 1_000_100 (
      prepared_row binding 0 action intent
        (record { nonce = 1_000_401; expires_after_ms = 1_015_000; observed_wall_ms = 1_000_000 })))

abbrev pub leased : Database
leased = record scoped { actions = held ∷ [] }

finds : find_action id leased.actions ≡ some held
unfolding find_action hyper_trader.Common.str_eq
finds = refl

one_held : count_if (has_id id) leased.actions ≡ 1
unfolding hyper_trader.Common.str_eq
one_held = refl

claims : is_ok (claim_lease id "device-0002" (pos 1_000_300) none leased) ≡ true
unfolding computed
claims = refl

abbrev claimed :
    (a : Option ReconciliationLease × Database) × (claim_lease id "device-0002"
        (pos 1_000_300)
        none
        leased
      ≡ ok a)
claimed = value_of (claim_lease id "device-0002" (pos 1_000_300) none leased) claims

claim_lease-held_example :
    (find_action id claimed.0.1.actions ≡ some held) × ((claimed.0.0 ≡ none) ⊎ (id ≢ id))
claim_lease-held_example =
    claim_lease-held id "device-0002" (pos 1_000_300) none leased claimed.0.0 claimed.0.1 id held
      "device-0001" 1_030_000 claimed.1 one_held finds refl refl (omega arith)

claims_next : is_ok (claim_next "device-0002" (pos 1_000_300) none leased) ≡ true
unfolding computed
claims_next = refl

abbrev claimed_next :
    (a : Option Claim × Database) × (claim_next "device-0002" (pos 1_000_300) none leased ≡ ok a)
claimed_next = value_of (claim_next "device-0002" (pos 1_000_300) none leased) claims_next

claim_next-held_example :
    (find_action id claimed_next.0.1.actions ≡ some held) × IsElsewhere id claimed_next.0.0
claim_next-held_example =
    claim_next-held "device-0002" (pos 1_000_300) none leased claimed_next.0.0 claimed_next.0.1 id
      held "device-0001" 1_030_000 claimed_next.1 one_held finds refl refl (omega arith)

to_started : assert_journal_transition prepared submission_started ≡ ok tt
unfolding assert_journal_transition
to_started = refl

to_unresolved : assert_journal_transition submission_started JournalState.unresolved ≡ ok tt
unfolding assert_journal_transition
to_unresolved = refl

to_accepted : assert_journal_transition JournalState.unresolved JournalState.accepted ≡ ok tt
unfolding assert_journal_transition
to_accepted = refl

-- A record on its way to `accepted`.
abbrev on_its_way : Reach submission_started JournalState.accepted
on_its_way = next (next here to_unresolved) to_accepted

Reach-terminal_example : JournalState.accepted ≡ JournalState.accepted
Reach-terminal_example = Reach-terminal {s = JournalState.accepted} refl here

abbrev started : Reach prepared JournalState.accepted
started = next (next (next here to_started) to_unresolved) to_accepted

Reach-submission_started_example :
    ((JournalState.accepted ≡ prepared) ⊎ (JournalState.accepted ≡ abandoned_before_submission))
    ⊎ Passes submission_started started
Reach-submission_started_example = Reach-submission_started started

Reach-ne-unsubmitted_example :
    (JournalState.accepted ≢ prepared) × (JournalState.accepted ≢ abandoned_before_submission)
Reach-ne-unsubmitted_example = Reach-ne-unsubmitted on_its_way

restart_recovery_decision-IsSafeRecovery_example :
    IsSafeRecovery held (restart_recovery_decision held)
restart_recovery_decision-IsSafeRecovery_example = restart_recovery_decision-IsSafeRecovery held
