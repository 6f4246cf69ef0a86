-- ===== src/Lib.antt =====
-- The order, fill and risk core of the hanstock service, checked.
--
-- The service plans trades and lets a broker execute them. What may lose money or shares is kept in
-- a few files, which this library models; they work on one SQLite database.
--   db/ai_schema_repository.py       Schema      the rows of the tables and the database as a record
--   db/ai_execution_repository.py    Execution   managed orders, positions and the fill ledger:
--                                                create_managed_order, transition_managed_order,
--                                                bind_managed_order_approval, apply_managed_fill
--   db/ai_risk_repository.py         Risk        budget reservations (reserve_risk_budget,
--                                                release_risk_reservation) and the rows of hard
--                                                stops (request_, activate_, fail_ and
--                                                cancel_position_protection,
--                                                list_unprotected_strategy_positions)
--   strategy/autonomy/risk_envelope.py
--                                    Envelope    evaluate: what an intent may trade, by the limits
--                                                and the state of the account
--   strategy/autonomy/protection.py  Protection  HardStopProtectionService: the calls of the stop
--                                                broker around these rows, and the gate
--   strategy/autonomy/order_state.py OrderState  ManagedOrderService: the state machine of an order
--   application/orders/models.py, application/orders/repository.py,
--   application/orders/position_reconciliation.py, db/migrations.py
--                                    Ledger      the ledger of every order, of the autonomy or not:
--                                                create, transition, bind_broker_result,
--                                                record_event, reconcile_snapshot and
--                                                apply_latest_open_reconciliation_issues
--   application/orders/preflight.py  Ledger/Capacity: evaluate_order_capacity and
--                                                require_order_capacity
--   application/orders/recovery.py   Ledger/Recovery: close_expired_unified_day_orders
-- (All paths are below src/ of the repository.) ManagedOrderService calls the repositories and the
-- protection: a transition is a compare-and-set on the order and, where it ends the order, the
-- release of the position's reservation; a fill is booked by the ledger, then its protection is
-- brought up to it, and then the reservation of a filled order is consumed. The unified ledger has
-- its own tables: a broker's report is checked against the transition table and the filled
-- quantity, its delta becomes a fill, and the position is summed up again from the fills and the
-- adjustments, which an alignment with the broker's balance adds.
--
-- Each component has its definitions in the first modules of its folder, under the names of the
-- source, and its proofs in modules named for what they show. Base holds what they share: Boolean
-- tests on the native numbers, integers, results, database tables as lists of rows with their ids
-- (Base/Tables), methods as sequences of transactions (Base/Actions) and relations that every
-- method keeps (Base/Keeps). Tests holds sample rows and the theorems applied to them.
--
-- How the code is read:
--   - A repository function is one transaction: it returns a result with the database it commits,
--     or an error, and then the database is as it was. A service method runs several transactions;
--     what one of them committed stays when the method raises later.
--   - An exception is an Error value, with the text of the source where it is constant; the parts
--     that are formatted into a text are left out, as are the alerts. A failing connection is not
--     modelled.
--   - Prices and amounts are Python floats: their type and operations are the parameter Float, and
--     a theorem that needs a law of it has it as a hypothesis. What the envelope is given may also
--     be nothing, unreadable, or an integer that float() cannot take (Envelope/Overflows).
--     Quantities and ids are native numbers; a quantity that a caller may get wrong is an integer.
--   - Each operation reads the clock once, as an argument. An answer of a broker is an argument too,
--     and may be that the call raised.
--   - JSON payloads are texts, and a secret is known by its identity. What Python makes of texts,
--     and what it reads from a payload, are the parameters PyText and PriceReader; a broker's raw
--     answer is a tree whose leaves are the numbers that float() reads (Ledger/Costs).
-- Every function is structural, so no fuel is needed.
--
-- Not modelled: planning, strategies, the dashboard, the brokers' clients, reports, and the listings
-- that only select rows. Of the recovery at start-up (application/orders/recovery.py) only the
-- flagging of orders of completed sessions is modelled. It writes orders beside the operations of
-- the ledger, and may put a canceled one back to broker_unknown, so what is shown of the end of an
-- order in a run of the ledger is shown between two start-ups.
pub mod Base
pub mod Schema
pub mod Execution
pub mod Risk
pub mod Envelope
pub mod Protection
pub mod OrderState
pub mod Ledger
pub mod Tests
