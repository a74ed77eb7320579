-- ===== src/Lib.antt =====
-- HoyHel, a marketplace of holiday homes: the services of its backend.
--
-- A request runs one service method against the tables of prisma/schema.prisma. A method is modelled as
-- an action: a function from the store to a result and the store. A thrown error is a result, and keeps
-- what was written before it; `transaction` undoes the writes of its body on an error. A request reads
-- one clock, one source of identifiers and one of random numbers, all in `Env`.
--
-- The parts, and the files that model them:
--   Prelude     lists as tables (find_first, update_many, count), text, and lemmas about them.
--   Schema      prisma/schema.prisma: enumerations, rows, and the store of all tables.
--   Service     backend/src/utils/errors.ts and what async methods of a service share.
--   Notifications  backend/src/modules/notifications/notifications.service.ts. Unread counts what is not
--               read, Listed models the pages, Badge compares the two.
--   Pricing     backend/src/modules/bookings/pricing.service.ts. Totals and Nights bound the parts of a
--               quote, Quote says when one is given and what it adds up to.
--   Bookings    backend/src/modules/bookings/booking.service.ts, with Bookings/Cancel for reading,
--               completion and cancellation, and Bookings/ByAdmin for cancellation by an administrator. Live
--               defines which stays hold their dates, Expiry is about the sweep of abandoned holds, Create
--               and Reservations take a creation apart, Given says when one is granted, Refunds and
--               FullRefund are about the two cancellations.
--   Payments    backend/src/modules/payments/payments.service.ts and payments.provider.ts. A booking is
--               made as a hold of fifteen minutes and confirmed by a payment (Confirm) or by an event of
--               the provider (Rebooking); Decides says what a request to pay comes to.
--   Properties  backend/src/modules/properties/properties.service.ts, and in Properties/Review the
--               operations on listings of backend/src/modules/admin/admin.service.ts. Machine lists the
--               transitions, HostMoves and AdminMoves prove each, Recorded all. Images models the
--               pictures of a listing, Cover counts them.
--               Search models searchProperties, Shown says what it shows. Rules is
--               backend/src/utils/propertyRules.ts, Unruled compares it with the services.
--   Lifecycle   histories of the requests about bookings, as a step relation. Moves and Paid say what each
--               step does to a row, Runs what holds along every history.
--   Worker      worker/src/processors/bookingExpiry.processor.ts.
--   Availability  backend/src/modules/availability/availability.service.ts. Calendar reads the table as a
--               function of listing and date, Blocked is about bookings of blocked dates.
--   Moderation  the operations on accounts of backend/src/modules/admin/admin.service.ts.
--   Accounts    backend/src/modules/users/user.service.ts, and reviewHostApplication. Sessions is about
--               passwords and closed accounts, Applications about applications to be a host.
--   Reports     backend/src/modules/reports/reports.service.ts, with the review of a report.
--   Administration  the figures and lists of backend/src/modules/admin/admin.service.ts. Pages models
--               their pages; Pages/Cover and Pages/Rows say what pages hold.
--   Messaging   backend/src/modules/messaging/messaging.service.ts. Threads is about conversations,
--               Unread about what is not read.
--   Websocket   backend/src/websocket/socket.ts. Overheard is about who hears a message.
--   Reviews, Payouts, Favorites  the services of those names under backend/src/modules. Ratings keeps the
--               rating of a listing, Balance the account of a host, Toggle is the set of favourites.
--   Password    backend/src/utils/password.ts and jwt.ts.
--   Auth        backend/src/modules/auth/auth.service.ts, with Auth/Recovery for one-time tokens and
--               Auth/Guards for backend/src/middleware/auth.middleware.ts.
--   Samples     data for the witnesses, which stand in the Tests modules.
--
-- Creating a booking sweeps abandoned holds, asks Pricing for a quote, and reserves in a transaction that
-- tells host and guest through Notifications. Moderation and password resets end sessions, which Auth
-- reads when a token is refreshed.
--
-- Conventions:
--   Money is in whole cents, rounded halves up as the code rounds; the error of binary fractions is not
--   modelled. A refund is in hundredths of a cent, cents times a percentage.
--   Instants and dates are milliseconds since 1970, `none` an invalid date, and the process runs in UTC.
--   The columns checkIn and checkOut of a booking and date of the calendar are dates: a value that is
--   written to one, or that a `where` clause compares it with, is cut to the start of its day. What the
--   code computes from a request (nights, prices, the check that a stay is not past) reads it uncut.
--   Identifiers, tokens and password hashes are opaque numbers; new ones come from `Env`.
--   Text is a list of UTF-16 code units, and case is mapped for ASCII letters.
--   A Prisma call is an operation on a table: a `where` clause is a test, `findUnique` and `findFirst`
--   give the first row in the order of the table, which is that of creation. A list has
--   that order too, but for the pages of Administration, of notifications and of the search, which follow
--   `orderBy`. A unique column and a foreign key that a
--   property depends on are checked.
--   The wording of notifications, the details of audit entries and the numbers quoted in error messages
--   are left out.
--   bcryptjs and jsonwebtoken are parameters, the record `Crypto`; the law that a theorem needs of them
--   is its hypothesis.
--   No model runs on fuel: every loop is over a list, or over the number of nights.
--
-- Not modelled: the HTTP layer with its schemas, rate limits, queues and mail, which are glue around
-- libraries; amenities, two calls of the database; isolation of concurrent transactions (a request is
-- one step); the web client, which shows what the services compute; sample data.
pub mod Prelude
pub mod Schema
pub mod Service
pub mod Notifications
pub mod Pricing
pub mod Bookings
pub mod Payments
pub mod Properties
pub mod Moderation
pub mod Password
pub mod Auth
pub mod Availability
pub mod Reviews
pub mod Payouts
pub mod Favorites
pub mod Messaging
pub mod Pages
pub mod Websocket
pub mod Accounts
pub mod Reports
pub mod Worker
pub mod Lifecycle
pub mod Administration
mod Samples
