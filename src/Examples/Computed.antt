-- ===== src/Examples/Computed.antt =====
-- What the tests compute with: a test that unfolds `computed` runs the code.

unfoldable pub computed : Unit {0}
unfolding hyper_trader.Common.Runs.catching hyper_trader.Common.Runs.optional
    hyper_trader.Common.Runs.reading hyper_trader.Common.Runs.◌>>=◌ hyper_trader.Common.Runs.◌>>◌
    hyper_trader.Common.is_digit hyper_trader.Common.is_hex hyper_trader.Common.is_lower_hex
    hyper_trader.Common.lex_lt hyper_trader.Common.lower_text hyper_trader.Common.matches_bounded
    hyper_trader.Common.matches_fixed hyper_trader.Common.str_eq hyper_trader.Common.strip_prefix
    hyper_trader.Common.to_lower hyper_trader.Decimals.compare_exact_decimals
    hyper_trader.Decimals.compare_magnitudes hyper_trader.Decimals.compare_unsigned_digits
    hyper_trader.Decimals.is_decimal_string hyper_trader.Decimals.parse_exact_decimal
    hyper_trader.Decimals.price_precision_for_size_decimals hyper_trader.Decimals.strip_leading
    hyper_trader.Decimals.strip_trailing hyper_trader.Flow.reduce_action_flow
    hyper_trader.Flow.run_flow hyper_trader.Journal.assert_journal_result_class
    hyper_trader.Journal.assert_journal_transition hyper_trader.Journal.may_mark_submission_started
    hyper_trader.Journal.restart_recovery_decision hyper_trader.Json.get_field
    hyper_trader.Json.is_forbidden_key hyper_trader.Json.serialize_secret_free_intent
    hyper_trader.Nonces.allocate_nonce hyper_trader.Nonces.assert_clock_gate
    hyper_trader.Nonces.safe_milliseconds hyper_trader.Orchestrator.confirm_action
    hyper_trader.Orchestrator.dispatch hyper_trader.Orchestrator.given
    hyper_trader.Orchestrator.hold_journal hyper_trader.Orchestrator.on_repository
    hyper_trader.Orchestrator.pipeline hyper_trader.Orchestrator.pre_submission_failure_message
    hyper_trader.Orchestrator.reconcile_failure hyper_trader.Orchestrator.reconcile_unresolved
    hyper_trader.Orchestrator.record_result hyper_trader.Orchestrator.recover_from
    hyper_trader.Orchestrator.reflect_durable hyper_trader.Orchestrator.send
    hyper_trader.Orchestrator.send_marked hyper_trader.Orchestrator.submit
    hyper_trader.Persistence.Actions.apply_transition hyper_trader.Persistence.Actions.consume
    hyper_trader.Persistence.Actions.create_transport_write_permit
    hyper_trader.Persistence.Actions.forget hyper_trader.Persistence.Actions.get_action
    hyper_trader.Persistence.Actions.mark_submission_started
    hyper_trader.Persistence.Actions.register_current_process_reservation
    hyper_trader.Persistence.Actions.require_action hyper_trader.Persistence.Actions.reserved
    hyper_trader.Persistence.Actions.start_submission
    hyper_trader.Persistence.Actions.transition_action hyper_trader.Persistence.Actions.update_one
    hyper_trader.Persistence.Leases.claim_lease hyper_trader.Persistence.Leases.claim_next
    hyper_trader.Persistence.Leases.claim_next_reconciliation
    hyper_trader.Persistence.Leases.claim_reconciliation_lease
    hyper_trader.Persistence.Leases.lease_duration hyper_trader.Persistence.Leases.next_candidate
    hyper_trader.Persistence.Leases.release_lease
    hyper_trader.Persistence.Leases.release_reconciliation_lease
    hyper_trader.Persistence.Leases.renew_lease
    hyper_trader.Persistence.Leases.renew_reconciliation_lease
    hyper_trader.Persistence.Leases.schedule hyper_trader.Persistence.Leases.schedule_reconciliation
    hyper_trader.Persistence.Manifest.compare_retirement_manifest
    hyper_trader.Persistence.Recovery.recover_after_restart
    hyper_trader.Persistence.Recovery.recover_one hyper_trader.Persistence.Recovery.recover_rows
    hyper_trader.Persistence.Retirement.insert_tombstone
    hyper_trader.Persistence.Retirement.retire_scope
    hyper_trader.Persistence.Rows.assert_lease_owner
    hyper_trader.Persistence.Rows.assert_prepared_action_fields
    hyper_trader.Persistence.Rows.assert_stored_identity
    hyper_trader.Persistence.Rows.assert_stored_numbers
    hyper_trader.Persistence.Rows.assert_stored_progress
    hyper_trader.Persistence.Rows.assert_stored_record hyper_trader.Persistence.Rows.assert_time
    hyper_trader.Persistence.Rows.from_row hyper_trader.Persistence.Rows.is_cloid
    hyper_trader.Persistence.Rows.is_correlation_id hyper_trader.Persistence.Rows.is_journal_id
    hyper_trader.Persistence.Rows.is_lease_owner hyper_trader.Persistence.Rows.is_lowercase_address
    hyper_trader.Persistence.Rows.is_lowercase_hash
    hyper_trader.Persistence.Rows.is_reconciliation_key
    hyper_trader.Persistence.Signers.agent_address_fingerprint
    hyper_trader.Persistence.Signers.assert_reservation_identifiers
    hyper_trader.Persistence.Signers.insert_action hyper_trader.Persistence.Signers.is_conflict
    hyper_trader.Persistence.Signers.register_active_signer
    hyper_trader.Persistence.Signers.register_active_signer_scope
    hyper_trader.Persistence.Signers.reserve hyper_trader.Persistence.Signers.reserve_action
    hyper_trader.Persistence.Signers.reserve_prepared_action hyper_trader.Persistence.Signers.scope
    hyper_trader.Persistence.Tables.find_action hyper_trader.Persistence.Tombstones.check_row
    hyper_trader.Persistence.Tombstones.create_retired_signer_tombstone
    hyper_trader.Persistence.Tombstones.validate_hash
    hyper_trader.Persistence.Tombstones.validate_tombstone
    hyper_trader.Persistence.Tombstones.verify_rows
    hyper_trader.Persistence.Tombstones.verify_tombstone_chain hyper_trader.Policy.assert_context
    hyper_trader.Policy.at_or_after_expiry hyper_trader.Policy.create_verdict
    hyper_trader.Policy.decide_action hyper_trader.Policy.decide_create
    hyper_trader.Policy.decide_reconciliation hyper_trader.Policy.exact_observed_order
    hyper_trader.Policy.has_acceptance hyper_trader.Policy.has_rejection
    hyper_trader.Policy.normalize_address hyper_trader.Policy.safe_time
    hyper_trader.Policy.same_identity hyper_trader.Prices.digits_of
    hyper_trader.Reconciler.next_attempt hyper_trader.Reconciler.reconcile
    hyper_trader.Reconciler.reconcile_action hyper_trader.Reconciler.reconcile_claim
    hyper_trader.Reconciler.schedule_after_failure hyper_trader.Reconciler.turn
    hyper_trader.Rules.evaluate_notification_rule hyper_trader.Rules.is_canonical_market
    hyper_trader.Rules.judge hyper_trader.Rules.judge_metric hyper_trader.Rules.validate_event
    hyper_trader.Rules.validate_rule hyper_trader.Signing.action_capabilities_for_release_stage
    hyper_trader.Signing.action_capability hyper_trader.Signing.assert_exchange_transport_capability
    hyper_trader.Signing.assert_known_action_network
    hyper_trader.Signing.assert_signer_access_capability hyper_trader.Signing.assert_signer_binding
    hyper_trader.Signing.assert_trading_action_capability hyper_trader.Signing.authorize_signing
    hyper_trader.Signing.has_trading_action_capability hyper_trader.Signing.normalize_signer_binding
    hyper_trader.Signing.sign_network hyper_trader.Validation.Actions.validate_trading_action
    hyper_trader.Validation.Amounts.compare_decimal hyper_trader.Validation.Amounts.format_decimal
    hyper_trader.Validation.Amounts.multiply_decimal
    hyper_trader.Validation.Amounts.normalize_decimal hyper_trader.Validation.Amounts.parse_decimal
    hyper_trader.Validation.Amounts.positive_decimal hyper_trader.Validation.Amounts.trim
    hyper_trader.Validation.Checks.assert_current_context
    hyper_trader.Validation.Checks.assert_tradable_market
    hyper_trader.Validation.Checks.is_market_code hyper_trader.Validation.Checks.normalize_price
    hyper_trader.Validation.Checks.normalize_size hyper_trader.Validation.Orders.assert_margin
    hyper_trader.Validation.Orders.assert_slippage hyper_trader.Validation.Orders.validate_order
computed = tt
