-- ===== src/Lib.antt =====
-- AssetLog's backend (backend/app): a single owner's portfolio tracker. The owner signs in
-- (Auth), records trades (Trades), imports files and exchange histories, and reads balances
-- back. Every service works over the session of one HTTP request, which commits when the handler
-- returns and rolls back when it raises.
--
-- Files and the code that they model:
--
-- - Prelude: library names, Boolean tests, lists, integers, sums and the stable sort of Python's
--   sorted and SQL's ORDER BY.
-- - Db: the rows of backend/app/models, the exceptions of backend/app/exceptions.py, and the
--   session of backend/app/db/base.py as a state and exception monad. Tables are lists in
--   insertion order, with the next value of AUTO_INCREMENT beside them.
-- - Auth: Attempts is backend/app/repositories/login_attempt.py, Limiter is
--   backend/app/services/login_rate_limiter.py, Service is authenticate of
--   backend/app/services/auth.py, the login handler of backend/app/routers/auth.py and
--   backend/app/scheduler/login_attempt_cleanup_job.py.
-- - Trades: Repo is backend/app/repositories/transaction.py, Timeline is the running-balance
--   check that both imports share, Service is backend/app/services/transaction.py.
-- - Bulk: Service is import_json of backend/app/services/bulk_transaction.py, with
--   get_user_asset_ids_by_symbol_exchange of backend/app/repositories/user_asset.py.
-- - Cash: Rows and Flow are backend/app/services/cash_flow.py, Reconcile is
--   reconcile_cash_balance of backend/app/services/exchange_sync.py. Accounts is
--   backend/app/services/cash_account.py with backend/app/repositories/cash_account.py, on a
--   table of its own.
-- - Sync: Records is backend/app/domain/exchange_sync.py and the records of
--   backend/app/adapters/parsers/base.py, Symbols, Trades and CashTxs are the imports of
--   backend/app/services/exchange_sync.py. A unique constraint is checked where a row is added;
--   the source meets it at the next flush, in the same request.
-- - Fx: Rates and Snapshots are backend/app/repositories/fx_rate.py, Service is
--   backend/app/services/fx_rate.py, over a state of its own with the two tables of rates.
-- - History: Buckets is backend/app/domain/portfolio_history.py, Rows is
--   backend/app/repositories/portfolio_history.py, Points is
--   backend/app/services/portfolio_history.py. The loop over the bucket boundaries has the
--   distance from the start to the end as fuel, in microseconds; a bucket is longer than that
--   unit, so it ends before.
-- - Portfolio: Holdings is list_holdings_with_aggregates of
--   backend/app/repositories/portfolio.py and summary of backend/app/services/transaction.py,
--   Split is the top of backend/app/services/portfolio.py.
-- - Prices: Service is backend/app/services/price_refresh.py with the table of
--   backend/app/repositories/price_point.py.
-- - Targets: Entries is backend/app/services/target_allocation.py with its repository and its
--   schema, Rebalance is backend/app/services/rebalance.py on a summary that is given.
-- - Upbit: Raw, Orders, Balances and Cash are backend/app/adapters/upbit_account.py. The bounds
--   of 200 pages are the source's own.
-- - Tax: Lots is the FIFO matching of backend/app/services/tax_kr.py, Average its weighted
--   average, its FX rate with the fallback, and the report. Its loops over the lots are
--   recursion on the list of lots, so they end.
-- - Performance: Flows, Series, Twr, Mwr, Window, Rates and Service are
--   backend/app/services/performance.py, Sampled is the series of values that
--   backend/app/services/risk.py, backend/app/services/heatmap.py and
--   backend/app/services/benchmark.py each build in the same steps. The 100 rounds of Newton's
--   iteration and the 200 of the bisection are the source's own.
-- - Risk: Drawdown, Statistics and Service are backend/app/services/risk.py, Grid and Benchmark
--   are backend/app/services/benchmark.py, Heatmap is backend/app/services/heatmap.py. The loop
--   over the days has the days between both ends and one more as fuel, the loop over the months
--   twelve rounds for each calendar year that it touches and one more.
-- - Symbols: Text is str.strip, Repo is backend/app/repositories/asset_symbol.py, Service is
--   backend/app/services/symbol.py.
-- - Dividends: Repo is backend/app/repositories/dividend.py, Service is
--   backend/app/services/dividend.py.
--
-- Numbers. DECIMAL columns are integers in units of their last digit, so sums, differences and
-- comparisons are exact, as they are in MySQL and in Python's decimal context while a value has
-- at most 28 digits. A product of a quantity and a price is in units of 10^-16. In Performance,
-- Risk and the yields of Dividends a quotient is an exact fraction, where Python rounds it to 28
-- digits. Datetimes are microseconds since 0001-01-01 in UTC; a subtraction that would go before
-- that date stops there. Text is compared exactly, as with a binary collation.
--
-- Parameters. bcrypt's check of a password is an argument of the functions that use it; so are
-- the resolvers of symbols and names, which ask the network, str.upper in Bulk and Upbit,
-- datetime.fromisoformat in Upbit, the answers of ccxt there and of the FX adapter in Fx and of
-- the price adapters in Prices, the database's LIKE, the adapters of symbols, dividends and
-- benchmarks, Python's floats in Performance and Risk (a record of their operations; a float
-- operation that raises is not modelled), the quotients in Python's decimal context in History
-- and Portfolio, and in Tax the calendar year of a datetime, a quotient, and for the matching
-- alone the FX rate at a date. FastAPI is taken to throw what a handler raises into the
-- request's session generator, as its documentation says.
--
-- Not modelled: the values of log messages and of error texts, created_at and updated_at,
-- pydantic's parsing and CSV reading, and the parts that PROJECT.json lists as such.
pub mod Prelude
pub mod Db
pub mod Auth
pub mod Trades
pub mod Bulk
pub mod Cash
pub mod Sync
pub mod Tax
pub mod Fx
pub mod History
pub mod Upbit
pub mod Targets
pub mod Portfolio
pub mod Prices
pub mod Performance
pub mod Risk
pub mod Symbols
pub mod Dividends
