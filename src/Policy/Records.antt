-- ===== src/Policy/Records.antt =====
-- packages/hyperliquid/src/reconciliation/policy.ts: the record of an action, the evidence of it, and decisions.
use hyper_trader.Common.{ℕ, Bool, String, List, Option, Number}
use hyper_trader.Json.{Fields}
use hyper_trader.Journal.{JournalState, JournalActionType}

pub record ReconciliationRecord : Type 0 where
  pub network : String
  pub master_account : String
  pub target_account : String
  pub action_type : JournalActionType
  pub asset_id : Option ℕ
  pub cloid : Option String
  pub target_oid : Option ℕ
  pub expires_after_ms : Number
  pub normalized_secret_free_intent : Fields

-- `opened` is the status "open".
pub data OrderStatus : Type 0 where
  opened filled canceled triggered rejected : OrderStatus

pub record ObservedOrderIdentity : Type 0 where
  pub asset_id : ℕ
  pub oid : ℕ
  pub cloid : Option String

pub data ObservedOrderEvidence : Type 0 where
  unknown malformed : ObservedOrderEvidence
  order : ObservedOrderIdentity → OrderStatus → ObservedOrderEvidence

pub record ObservedPositionEvidence : Type 0 where
  pub asset_id : ℕ
  pub size : String

pub data MarginMode : Type 0 where
  cross isolated : MarginMode

pub record ObservedLeverageEvidence : Type 0 where
  pub asset_id : ℕ
  pub leverage : ℕ
  pub margin_mode : MarginMode
  pub causally_attributed : Bool

pub record EvidenceContext : Type 0 where
  pub network : String
  pub master_account : String
  pub target_account : String
  pub asset_id : Option ℕ

-- The optional fields: an absent `leverage` is `none`, an absent `definitiveRejection` false.
pub record ReconciliationEvidence : Type 0 where
  pub context : EvidenceContext
  pub server_time_ms : Number
  pub complete : Bool
  pub order : ObservedOrderEvidence
  pub open_orders : List ObservedOrderIdentity
  pub fills : List ObservedOrderIdentity
  pub position : Option ObservedPositionEvidence
  pub leverage : Option ObservedLeverageEvidence
  pub state_version : Number
  pub definitive_rejection : Bool

pub data UnresolvedReason : Type 0 where
  incomplete_evidence before_expiry action_still_pending : UnresolvedReason

pub data ReconciliationDecision : Type 0 where
  terminal : JournalState → ReconciliationDecision
  unresolved : UnresolvedReason → ReconciliationDecision
