-- ===== src/Lib.antt =====
-- The verification of the backend of Vellora, a workforce platform for companies with stores: NestJS
-- services over a PostgreSQL database that every company shares.
--
-- How a request runs. The guards decide whether a route may be called at all; a handler of a service
-- then checks the state of the rows and the stores that the caller manages, and reads and writes
-- tables through a repository. Each repository call is a transaction of its own, in which row-level
-- security hides the rows of other companies. A handler that throws half-way leaves what it wrote.
--
-- How this is modelled.
-- - Database (src/database/database.service.ts): a table is a list of rows, and a query a Boolean
--   test. A test names the company of the request, which stands for row-level security. Database/Laws,
--   Totals, Unique and Pairs hold the laws of reads and writes, of sums over a table, of unique keys and
--   of pairs of rows. A column that is set to `undefined` stays as it was.
-- - Nest. A handler is a function of the state of the database that returns a result and a new state.
--   The result is a value or one of the exceptions of NestJS. A statement that a constraint refuses is
--   `database_error`.
-- - Access/Principal (src/common/types/authenticated-user.ts): the caller, the clock, and the ids that
--   the database draws, as functions of how many were drawn before. The theorems that insert a row say
--   that the drawn id is new.
-- - Access/Guards (src/common/guards, src/common/tenant): what a guard decides of the metadata of a
--   route and of the caller.
-- - Access/Permissions (src/permissions): the role defaults, the stored overrides, the matrix and the
--   guard on them.
-- - Access/Entitlements (src/entitlements): the defaults, the plan of the subscription and the
--   operators' override; JSON objects are association lists.
-- - Access/RateLimit (src/common/guards/rate-limit.guard.ts): the map of hits in memory.
-- - Access/Limits (src/billing): the caps that are checked before an employee, a store or a seat is
--   added. The rest of billing is not modelled.
-- - Transfers (src/transfers): Model holds the tables and the repository, Service the handlers and the
--   daily sweep; Sweep compares the two loops of the sweep with a description of one row, Lifecycle
--   gives the diagram of the statuses, and Links follows the guest link of a temporary transfer.
-- - Leave (src/leave): Model holds the tables and the repository, Calendar the count of working days,
--   Rules what the handlers decide, Service the handlers; Balances says what a change of a balance does, and Ledger ties the balances
--   to the requests.
-- - Devices (src/devices/device-registration.service.ts and its repository): Model holds the tables
--   with the partial unique index, Views the bodies and answers, Service the handlers; Listing the list for managers; OneActive and
--   Registering keep the index, Admitted says whom the check before a punch lets through, Gate
--   what the other handlers do to it, and Renewed is about a new device after `revoke`.
-- - Terminals (src/devices/devices.service.ts): Qr is the text of a code, Model the tables, Service the
--   handlers; Codes follows a code from the kiosk to the scan, Accepted and Carried say what a
--   scan may accept, and Stopped is about a terminal that is taken out
--   of use. The codec, the text of an id and the random secret are parameters.
-- - Scheduling (src/scheduling): Model and Queries hold the tables and the repository, Rules the limits,
--   Service the handlers on shifts with the conflict guard, Planning the templates, the copied week and
--   the coverage of Cells, Suggestions the ranges; Bookings says what the guard lets through, Kept,
--   Released, Handlers and Approval what becomes of the bookings, Limits and Targets what is left by `create` and by
--   `setCoverageTargets`. The reading of "HH:MM" is a parameter.
-- - Attendance (src/attendance): Model and Queries hold the tables and the repository, Rules the limits,
--   Service the punches, Batches the offline batch, Kiosk the scan with the terminals and the registrations,
--   Corrections the anomalies and corrections; OnePunch, Detection, Punches, Synced,
--   Approvals and Requests are about open logs, Clocked is about the row of a clock-in, Replay about what
--   a batch does, Newest and Closing about clocking out, Authority about the kiosk. The reading of dates, and
--   whether the column of minutes refuses a number, are parameters.
-- - Employees (src/employees/activation-requests.service.ts and its repository): Model holds
--   the tables, Activation the handlers, Applying is about who may apply, Seats about
--   the limit of the plan. The invitation is a parameter.
--
-- Names are those of the source in snake case. Ids are numbers, dates are days since 1970-01-01 (in
-- Scheduling since Monday 0001-01-01), times are milliseconds, and amounts of leave are hundredths of a day. All loops of the source run over
-- lists or over the days of a range, and are recursions on them; no fuel is needed. `String.trim` and
-- the random token of a device are parameters.
--
-- Not modelled: rows that other requests write between the calls of one handler; the joined columns
-- that only fill an answer; controllers, modules, schemas of requests, the mailer, storage, payment,
-- realtime and AI clients; the lists of
-- devices, terminals and templates, the export of the attendance; and the services of employees, onboarding, recruiting,
-- documents, messaging, companies and stores.
pub mod Prelude
pub mod Database
pub mod Nest
pub mod Access
pub mod Transfers
pub mod Leave
pub mod Devices
pub mod Terminals
pub mod Scheduling
pub mod Attendance
pub mod Employees
