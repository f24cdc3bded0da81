-- ===== src/Examples/Orders.antt =====
-- A purchase at the market, five hundredths of a percent above the current price.
use hyper_trader.Examples.Computed.{computed}
use hyper_trader.Common.{◌≡◌, refl, true, false, String, Option, none, some, pos, ok, codes}
use hyper_trader.Signing.{candidate}
use hyper_trader.Validation.{
  buy, perp, boolean, cross, ActionValidationContext, ActionMarketRules, ActionAccountRules,
  ActionControls, market_order, OrderIntent, order, TradingActionValidationInput,
  ValidatedTradingAction,
}
use hyper_trader.Validation.Orders.{order_fields}
use hyper_trader.Validation.Actions.{validate_trading_action}
use hyper_trader.Validation.Current.{IsCurrent}
use hyper_trader.Validation.Validated.{IsValid, validate_trading_action-IsValid}

abbrev master : String
master = "0xaaaaaaaaaaaaaaaaaaaaaaaaaaaaaaaaaaaaaaaa"

abbrev context : ActionValidationContext
context = record {
  network = "testnet";
  master_account = master;
  target_account = master;
  captured_context_epoch = pos 3;
  current_context_epoch = pos 3;
  current_network = "testnet";
  current_master_account = master;
  current_target_account = master;
  reviewed_at_ms = pos 1_000;
  review_expires_at_ms = pos 31_000;
  now_ms = pos 2_000;
}

abbrev market : ActionMarketRules
market = record {
  canonical_id = "perp:0:1";
  metadata_fingerprint = "v1";
  order_asset_id = pos 1;
  family = perp;
  is_active = true;
  is_enabled = true;
  size_decimals = some (pos 2);
  price_precision = some (pos 5, pos 4);
  max_leverage = some (pos 20);
  only_isolated = boolean false;
  reference_price = some (codes "100.0");
  minimum_notional = some (codes "10");
}

abbrev account : ActionAccountRules
account = record {
  available_margin = codes "50.5";
  leverage = some (pos 5);
  margin_mode = some cross;
  position_size = none;
  open_orders = none;
  version = pos 7;
}

abbrev controls : ActionControls
controls = record { slippage_bps = some (pos 5); trigger = none }

abbrev purchase : OrderIntent
purchase = record {
  fields = order_fields market_order;
  kind = market_order;
  asset_id = pos 1;
  side = buy;
  size = codes "1.50";
  price = codes "100.05";
  cloid = "0x0000000000000000000000000000000A";
}

abbrev input : TradingActionValidationInput
input = record {
  context = context;
  market = market;
  account = account;
  controls = controls;
  intent = order purchase;
}

abbrev validated : ValidatedTradingAction
validated = record {
  intent =
      order (record purchase { size = codes "1.5"; cloid = "0x0000000000000000000000000000000a" });
  notional = some (codes "150.075");
  account_state_version = 7;
  market_canonical_id = "perp:0:1";
}

abbrev get_address : String → Option String
get_address address = some address

accepts : validate_trading_action candidate get_address input ≡ ok validated
unfolding computed
accepts = refl

validate_trading_action-IsValid_example :
    IsCurrent candidate get_address context
    × IsValid market account controls (order purchase) validated
validate_trading_action-IsValid_example =
    validate_trading_action-IsValid candidate get_address input validated accepts
