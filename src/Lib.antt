-- ===== src/Lib.antt =====
-- Payrolla: payroll for Ghanaian companies, and the delivery of its payslips.
--
-- The program is a Flask application. A payroll run holds one item for each worker. An item's pay is
-- computed from the month's figures and from the statutory rates in force (app/payroll_calculations,
-- app/models.py); the run is checked and totalled (app/payroll.py), scored by the risk gate
-- (app/risk.py, app/oversight), and moved through its statuses by routes that test the user's role
-- (app/permissions.py, app/roles.py, app/payroll_status.py). An approved run's payslips are queued as a
-- batch, claimed by a worker and sent one by one (app/distribution).
--
-- Which module models what:
-- - Money: app/money.py. `round_half_up` is the one rounding, on pesewas.
-- - Statutory: class StatutoryRate of app/models.py: compute_paye, compute_overtime_tax, split_bonus,
--   icu_dues, active_for.
-- - Deductions: app/payroll_calculations/deductions.py, block by block in the order of the source;
--   DeductionPolicyError is the error of a result.
-- - Salaried: app/payroll_calculations/salaried.py (`settle_pay` is `calculate` after the policy's
--   call), and verify_statutory_invariants, the costing of a run and refresh_run_totals of
--   app/payroll.py.
-- - Deductions/Roster: context_for_employee, the evidence on the roster for a date.
-- - Yearly: app/payroll_calculations/__init__.py: period_start, statutory_rate_for_run, and the use of
--   the yearly bonus concession over the closed runs. Bands: bands_from_rows of app/statutory.py.
-- - RawEngine: compute_payslip of app/raw_engine/compute.py with app/raw_engine/calc. Its children:
--   Cleaning, Consolidation and Validation (the files of those names), Seed (run.py, the payslips of a
--   seed month), Spelling (which spellings are one key), Rates (calc/rates.py) and Union (icu_distribution.py). Hourly: app/payroll_calculations/hourly.py on a raw run, with
--   WageRateProfile.profile_for; both call the policy of Deductions and the taxes of Statutory.
-- - Status: app/payroll_status.py and the columns of PayrollRun that the lifecycle reads.
-- - Access: app/roles.py and app/permissions.py, the predicates by which pages offer an action. Text: Python strings as lists of code points.
-- - Lifecycle: the routes of app/payroll.py and app/oversight/__init__.py on one run and in bulk. A
--   route takes the stored runs and returns its reply with the runs as it leaves them. Calculation: the
--   route `calculate` of app/payroll.py on one run, over Yearly, Hourly and Salaried; a run carries what
--   the route reads of the tables, and the names, bank columns and warnings it copies are left out.
-- - Risk: the three rules of app/risk.py.
-- - Delivery: app/distribution/service.py: one row of the table of deliveries, its claim and its attempt.
--   `claim_delivery` is the conditional UPDATE, one atomic step on the table. Attempts: the whole attempt.
-- - Send: distribute_run and retry_delivery of app/distribution/service.py over the items of a run.
-- - Links: the short codes of app/distribution/links.py and the signed tokens of tokens.py; the keyed
--   hash and the signing library are parameters.
-- - Once: replay_or_run of app/distribution/idempotency.py, which a send of a run goes through.
--   Limits: app/distribution/request_limit.py, with the log it stands for. Lockout:
--   app/login_throttle.py. Phones:
--   normalise_gh_mobile of app/distribution/phones.py.
-- - Queue: app/distribution/queue.py: the table of batches, and what the routes and the schedule do to
--   it. Passes: what a worker does to it.
-- - Settle: settle.py, recovery.py and receipts.py of app/distribution, and `cancel_retry`.
-- - Prelude: shared names, Boolean tests, lists, integers, results. Fixtures: the tests' data.
--
-- How values are modelled: an amount of money is a whole number of pesewas, of either sign where the
-- source does not refuse a negative one; a rate is a whole number of millionths. The source keeps
-- amounts as floats that are rounded to two places at every step, and computes with Decimal in between,
-- so these are the values it stores; hours are hundredths and an hourly rate is in millionths of a
-- pesewa; Decimal arithmetic is taken as exact, and a stored float as its
-- two-place decimal. Two places of the source round a product of floats instead: the lines of hours
-- times a rate (hourly.py, calc/rates.py) and the shares of the union dues (icu_distribution.py). There
-- the model rounds the exact product, and a stored amount may differ from it by a pesewa where the
-- product is next to a half. Percentages of the risk gate are compared without division. Times are whole
-- seconds. `strip` and `lower` act on ASCII, which is all that a stored role holds. A table of the
-- database is a list of rows, an UPDATE with its condition is one step, and a commit is the return of
-- the new list. An operation of the queue of batches is one step too, although enqueue_distribution and
-- activate_due_scheduled read before they write, without a lock: overlapping requests, which can leave
-- two unfinished batches of a run or revive a batch that was cancelled in between, are not modelled.
-- What happens once an item is claimed (its contact, its message, the provider's answer),
-- the channel of an item, and in Queue the summary of a batch's send are parameters.
--
-- The fuel of `process_all_queued` bounds the rounds of its loop; as many rounds as there are queued
-- batches are enough.
--
-- Not modelled: the network, files, PDF and spreadsheet libraries, pages and their texts, audit rows and
-- events (output only), the reading of uploads, and the queries that only display.
pub mod Prelude
pub mod Money
pub mod Statutory
pub mod Text
pub mod Deductions
pub mod Salaried
pub mod Status
pub mod Access
pub mod Fixtures
pub mod Lifecycle
pub mod Risk
pub mod Delivery
pub mod Settle
pub mod Queue
pub mod Passes
pub mod Send
pub mod Links
pub mod RawEngine
pub mod Hourly
pub mod Yearly
pub mod Bands
pub mod Limits
pub mod Once
pub mod Phones
pub mod Lockout
pub mod Calculation
