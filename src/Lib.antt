-- ===== src/Lib.antt =====
-- A model of the sales core of salepoint-backend, a point of sale for shops (NestJS, PostgreSQL,
-- Redis and Bull), and what holds of it.
--
-- The program. OrdersService (src/modules/orders/orders.service.ts) sells: it looks products up in
-- ProductsService, reserves their stock in InventoryService, computes the totals, saves the order,
-- opens a debt in DebtsService for what is not paid, adds the sale to the shift of the cashier
-- (ShiftsService) and queues a job. OrderProcessor (src/queue/processors/order.processor.ts) runs
-- the job, which takes the quantities from the oldest batches. PaymentsService pays for an order
-- later, `returnOrder` brings quantities back, `cancel` releases what was reserved.
--
-- The files.
--   Prelude, Exec     shared names, lemmas on lists and tables; a service method as a function from
--                     a state to a result and a state, where a throw keeps the state
--   Double            IEEE doubles: `+`, `-`, `*`, `toFixed(2)`, and the rounding of a column
--   Decimal           amounts and their rounding to cents (`toFixed(2)`)
--   Pagination        src/common/utils/pagination.util.ts
--   Products          src/modules/products/products.service.ts and its cache: `find_raw_by_id` is
--                     `findRawById`, `create`, `update`, `remove`, `confirm_image`,
--                     `remove_image`, `assert_quantity_for_unit`; and the keys of images of
--                     src/modules/storage/storage.service.ts
--   Inventory         src/modules/inventory/inventory.service.ts: `reserve_stock`, `release_stock`,
--                     `deduct_from_storage`, `return_to_storage`, `add_to_storage`, `adjust`
--   Entities          the rows of orders, debts, shifts, payments and customers
--   Database          the state that the services share, and `dataSource.transaction`
--   Orders            src/modules/orders/orders.service.ts: `create`, `cancel`, `mark_paid`,
--                     `mark_stock_deducted`, `return_order`
--   Debts             src/modules/debts/debts.service.ts: `create_from_order`, `repay`,
--                     `get_debtors_summary`
--   Payments          src/modules/payments/payments.service.ts: `process`, `refund`
--   Shifts            src/modules/shifts/shifts.service.ts: `open_shift`, `close_shift`
--   Queue             src/queue/processors/order.processor.ts: `handle_process_payment`
--   Sales             the calls of orders, payments, inventory and the queue as steps of one system,
--                     and what they reach
--   Tenancy           the lists of orders, debts, batches, movements and levels by shop; the lists
--                     themselves stand in Orders/Listing, Debts/Listing, Inventory/Listing,
--                     Products/Listing, Customers/Listing and Shifts/Listing, with the sort of each
--                     as an argument
--   Accounts          the rows of users, shops, their members and refresh tokens
--   Shops             src/modules/shops/shops.service.ts: `assign_user`, `create_for_owner`,
--                     `set_status` (suspend, activate), `expire_subscriptions`
--   Auth              src/modules/auth/auth.service.ts: `issue_tokens`, `select_shop`,
--                     `switch_shop`, `refresh`, `logout`, `login`
--   Guards            src/common/guards: `handle_request`, `roles_guard`, `subscription_guard`,
--                     `client_type_guard`
--   Users             src/modules/users/users.service.ts: `create`, `update`, `soft_delete`
--   Customers         src/modules/customers/customers.service.ts: `create`, `update`,
--                     `find_by_phone`, `add_loyalty_points`, `record_visit`
--   Printer           src/modules/printer/printer.service.ts as the list of the calls of the printer
--                     (`build_receipt`, `print_receipt`), and `get_receipt` and `print_order` of
--                     OrdersService
--   Sms               src/modules/sms, src/queue/processors/sms.processor.ts:
--                     `send_debt_reminder`, `handle_callback`, `find_logs`, `list_logs`,
--                     `handle_send_debt_reminder`, `on_failed`, `dev_sms_send`
--   Reports           src/modules/reports/reports.service.ts, and the overview of
--                     src/modules/dashboard/dashboard.controller.ts
--   Tests             the theorems at sample data
--
-- The state is a record of tables, each a list of rows in the order of insertion; a query takes the
-- first row that its condition holds for. A transaction gives back the tables that it began with if
-- its body throws, while the cache and the queue keep what was written. Keys (UUIDs) are numbers
-- that the database hands out in increasing order.
--
-- Numbers. A column of money holds cents, a quantity thousandths of a unit, a rate hundredths of a
-- percent. The program computes with IEEE doubles. Double has those that are not negative, with the
-- rounding of each operation, of `toFixed(2)` and of a column; the totals of an order, what it
-- leaves unpaid, the test of `reserveStock`, what `deductFromStorage` has left to deduct and the
-- change of a receipt are computed with them. Elsewhere (debts, payments, shifts, reports, batches
-- and levels) the numbers have two or three decimals and are added exactly, as the columns that they
-- end in round the doubles; Decimal rounds amounts of more decimals. The columns bound every number
-- below 10^11, and their overflow is not modelled. Prices, margins and discount values of a request
-- are taken with two decimals, as many as their columns have. Loops are recursions over the list
-- that they run over; the one with fuel, `ulp` of Double, searches the exponent of a double: 200
-- steps reach 2^133 in units of 1, more than any amount that the columns admit.
--
-- What is safe about the stock tables (Inventory/Sound): keys are unique; for every product the
-- level agrees with the sum of its batches and with the sum of its physical movements (`IsSound`);
-- and what is reserved is at most what the batches hold (`IsCovered`); both together are `IsSafe`.
--
-- Not modelled: requests that interleave (each method runs alone, as the row locks of the stock
-- level intend), the lists of users, shops and categories, which only read, the events, which
-- nothing listens to, controllers that call one method of a service, migrations, and the wiring of
-- the framework.
--
-- AuthService and ShopsService work on a state of their own (Accounts). What bcrypt and the JWT
-- library answer is given to the methods: `hash` is a parameter, the payload of a verified token an
-- argument, and the theorem that needs it assumes that a hash differs from what was hashed.
--
-- Reminders have a state of their own (Outbox): the log, the jobs, and the tables that they read.
-- Bull is not modelled but by what its documentation says of a job with `attempts` (the relation
-- `Attempts` of Sms/Retries). The provider, its HTTP client, the number format of the host, the
-- printer's socket and the bucket of images are parameters. Images have a state of their own too
-- (Shelf), with the deletions that were requested of the bucket. Where TypeORM matters, the model
-- follows its documentation: `save` skips a property that is undefined, and `andWhere` adds its text
-- to the other conditions as it stands.
pub mod Prelude
pub mod Exec
pub mod Decimal
pub mod Double
pub mod Pagination
pub mod Products
pub mod Inventory
pub mod Entities
pub mod Database
pub mod Debts
pub mod Orders
pub mod Payments
pub mod Shifts
pub mod Queue
pub mod Sales
pub mod Tenancy
pub mod Accounts
pub mod Shops
pub mod Users
pub mod Customers
pub mod Printer
pub mod Sms
pub mod Reports
pub mod Auth
pub mod Guards
pub mod Tests
