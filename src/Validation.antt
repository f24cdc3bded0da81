-- ===== src/Validation.antt =====
-- packages/hyperliquid/src/actions/validation.ts: `validateTradingAction`, which checks an action
-- against the current context, market and account before it is signed. A decimal is a text, the list
-- of its code points. A value whose type is a union of texts has one constructor more, for any other
-- value, and an object that must have certain fields and no others comes with the names of its fields.
use hyper_trader.Common.{ℕ, Bool, String, Option, List, Number, Result}
use hyper_trader.Decimals.{PricePrecisionInputs}
pub mod Amounts
pub mod Checks
pub mod Orders
pub mod Protective
pub mod Actions
pub mod Bounds
pub mod Margin
pub mod Numerals
pub mod Current
pub mod Accepted
pub mod Protected
pub mod Aimed
pub mod Validated

pub data OrderSide : Type 0 where
  buy sell other_side : OrderSide

pub data TimeInForce : Type 0 where
  add_liquidity_only good_til_cancelled immediate_or_cancel other_time_in_force : TimeInForce

-- A value that should be a Boolean.
pub data Flag : Type 0 where
  undefined : Flag
  boolean : Bool → Flag
  other_value : Flag

pub data AccountMarginMode : Type 0 where
  cross isolated other_mode : AccountMarginMode

pub data TriggerDirection : Type 0 where
  above below other_direction : TriggerDirection

pub data MarketFamily : Type 0 where
  perp spot outcome other_family : MarketFamily

pub record ActionValidationContext : Type 0 where
  pub network : String
  pub master_account : String
  pub target_account : String
  pub captured_context_epoch : Number
  pub current_context_epoch : Number
  pub current_network : String
  pub current_master_account : String
  pub current_target_account : String
  pub reviewed_at_ms : Number
  pub review_expires_at_ms : Number
  pub now_ms : Number

-- `lifecycle === "active"` and `orderAvailability === "enabled"` are Booleans.
pub record ActionMarketRules : Type 0 where
  pub canonical_id : String
  pub metadata_fingerprint : String
  pub order_asset_id : Number
  pub family : MarketFamily
  pub is_active : Bool
  pub is_enabled : Bool
  pub size_decimals : Option Number
  pub price_precision : Option (Number × Number)
  pub max_leverage : Option Number
  pub only_isolated : Flag
  pub reference_price : Option (List ℕ)
  pub minimum_notional : Option (List ℕ)

pub record CurrentOpenOrderIdentity : Type 0 where
  pub asset_id : Number
  pub oid : Option Number
  pub cloid : Option String

pub record ActionAccountRules : Type 0 where
  pub available_margin : List ℕ
  pub leverage : Option Number
  pub margin_mode : Option AccountMarginMode
  pub position_size : Option (List ℕ)
  pub open_orders : Option (List CurrentOpenOrderIdentity)
  pub version : Number

pub record TriggerControl : Type 0 where
  pub price : List ℕ
  pub direction : TriggerDirection

pub record ActionControls : Type 0 where
  pub slippage_bps : Option Number
  pub trigger : Option TriggerControl

pub data OrderKind : Type 0 where
  market_order reduce_only_close : OrderKind
  limit_order : (time_in_force : TimeInForce) (reduce_only : Flag) → OrderKind

-- An order of one of the three types; `price` is `limitPrice` or `aggressiveLimitPrice`.
pub record OrderIntent : Type 0 where
  pub fields : List String
  pub kind : OrderKind
  pub asset_id : Number
  pub side : OrderSide
  pub size : List ℕ
  pub price : List ℕ
  pub cloid : String

pub data TriggerKind : Type 0 where
  take_profit stop_loss other_kind : TriggerKind

pub record PositionTpslIntent : Type 0 where
  pub fields : List String
  pub asset_id : Number
  pub side : OrderSide
  pub size : List ℕ
  pub trigger_price : List ℕ
  pub aggressive_limit_price : List ℕ
  pub trigger_kind : TriggerKind
  pub existing_oid : Option Number
  pub cloid : String

pub data CancelTarget : Type 0 where
  by_oid : (fields : List String) (oid : Number) → CancelTarget
  by_cloid : (fields : List String) (cloid : String) → CancelTarget
  other_target : CancelTarget

pub record CancelIntent : Type 0 where
  pub fields : List String
  pub asset_id : Number
  pub target : CancelTarget

pub record UpdateLeverageIntent : Type 0 where
  pub fields : List String
  pub asset_id : Number
  pub margin_mode : AccountMarginMode
  pub leverage : Number

pub data TradingActionIntent : Type 0 where
  order : OrderIntent → TradingActionIntent
  position_tpsl : PositionTpslIntent → TradingActionIntent
  cancel : CancelIntent → TradingActionIntent
  update_leverage : UpdateLeverageIntent → TradingActionIntent
  bulk_cancel unsupported : TradingActionIntent

pub record TradingActionValidationInput : Type 0 where
  pub context : ActionValidationContext
  pub market : ActionMarketRules
  pub account : ActionAccountRules
  pub controls : ActionControls
  pub intent : TradingActionIntent

pub record ValidatedTradingAction : Type 0 where
  pub intent : TradingActionIntent
  pub notional : Option (List ℕ)
  pub account_state_version : ℕ
  pub market_canonical_id : String
