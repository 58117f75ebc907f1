-- ===== src/Lib.antt =====
-- PaySuper billing server: the service that sells products of a merchant, takes the payments, and
-- settles with the merchant. Eight parts of it are modelled.
--
-- * Activation keys. Key is internal/repository/key.go with its mapper
--   internal/repository/models/key.go; Key.Service, with Key.Service.Notify, is
--   internal/service/key.go; Key.Order holds the two loops over the keys of an order from
--   internal/service/order.go (reserveKeysForOrder and orderNotifyKeyProducts). A method takes the
--   clock and the state of the collection and gives its answer with the state after it. The other
--   children of Key hold lemmas and theorems.
-- * The check of a bank card. BankCard is internal/service/bank_card.go: Luhn and Digits are about
--   the number, Expiry about the month, Outcome about the whole check.
-- * Settlement with a merchant. Settlement holds the documents and what is outside;
--   Settlement.Balance is internal/service/merchant_balance.go; Settlement.Sources, Create and
--   Update are internal/service/payouts.go with the loops over reports of
--   internal/service/royalty_report.go and the query of GetNonPayoutReports of
--   internal/repository/royalty_report.go; Settlement.Review is the reading, the review and the
--   automatic acceptance of internal/service/royalty_report.go. Record, Transition, Payment, Money,
--   Payable, Taken and Decision hold lemmas and theorems. A payout takes royalty reports, marks
--   them, and they follow its status; each of these steps refreshes the balance of the merchant.
-- * Payments and refunds. Payment holds the documents and what is outside. Payment.Callback is
--   PaymentCallbackProcess of internal/service/order.go with GetGateway and onPaymentNotify,
--   Payment.Requisites and Payment.Update its fillPaymentData… and updateOrder, Payment.View is
--   internal/service/order_view.go. Payment.Refunding, Payment.Copying and Payment.Reversal are
--   internal/service/refund.go with onRefundNotify. Payment.Cardpay and Payment.Sending are what
--   the adapter internal/payment_system/cardpay.go makes of callbacks and of the reply to a
--   refund; the service sees it as a Gateway, a record of functions. Genuine, Stored, Forged,
--   Asked, Reversed, Copied and Inserted hold lemmas and theorems.
-- * Users. Users holds the documents and what is outside; Users.Invite, Users.Role and
--   Users.Listing are internal/service/users.go. Owner, Accepted and Token hold lemmas and theorems.
-- * Accounting entries. Accounting holds the documents and what is outside; its other children are
--   internal/service/accounting_entry.go: Build and Add make an entry and complete it, Costs looks
--   up what a method costs, PaymentEvent and RefundEvent make the entries of a payment and of a
--   refund in the segments of their numbers, Save writes them and counts the pay link again,
--   Service starts an event, Create is CreateAccountingEntry and RebuildAccountingEntries, Fix is
--   FixTaxes. A step that builds entries is a function from the entries so far to an error or a
--   value and the entries after it. Adds is a family of postconditions of such steps with a rule
--   for each way to build one, Adding its rules for an amount; Paid, Refunded, Saved, Notified,
--   Turned, Created, Rebuilt and Fixes hold lemmas and theorems.
-- * Tariffs. Tariffs holds the documents and what is outside. Tariffs.Choice is the choice of the
--   interval of a cost, which three methods share, with the searches of
--   internal/service/money_back_cost_merchant.go, money_back_cost_system.go and
--   payment_channel_cost_merchant.go; Tariffs.Setting and Tariffs.Channel are the methods of these
--   files and of payment_channel_cost_system.go that set and delete costs. Latest, Valid and
--   Checked hold lemmas and theorems. The accounting sees the choice as an answer of its
--   environment, by the request that it makes.
-- * Merchants. Onboarding holds the document and what is outside; Onboarding.Changes is what
--   internal/service/onboarding.go does to the status of a merchant, its company and its
--   signatures. Accepting holds lemmas and theorems.
--
-- A method of the settlement, of payments, of users, of accounting, of tariffs and of merchants is
-- a Handler: from the history of what was done to the outside, the newest event first, to an early
-- answer or a value, and the longer history. Every answer of a repository, of the clock or of a
-- broker is a function of that history, so it may change with every write; whether a write succeeds
-- is such an answer too, and its event stands in the history either way. Two readings of the clock
-- with nothing done in between agree. The fields of a request that name who asks (ip, initiator)
-- are carried by no event.
--
-- Parameters. Mongo is the database driver: a collection with its operations, and IsCollection,
-- what its documentation promises, which Memory fulfils. Floats is float64 with no law. Codec and
-- Env are the packages for identifiers and times, the configuration, and, for the settlement,
-- payments and users, the repositories and the other services; sending a document to the reporter
-- or a mail to the broker is an event with an outcome. IsFoundById says that a report read by its
-- identifier has that identifier; IsSigned says that a signed token is read as its claims until it
-- expires. KeepsSign and Negates say of the numbers that a precision and minus one do what their
-- names say to a sign; Sorts is what sort.Slice does to a slice. Strconv and Bufio are the parts of
-- Go's library that the code calls, on bytes.
--
-- Bounds. Numbers are natural, and a word of the machine keeps its wrap-around (the count of keys is
-- a signed 32-bit number, strconv has 64 bits). Fuel is used for printing a number, above the number
-- of its digits, and for the loop that cuts identifiers into batches, which has one round for each
-- identifier; where these are too few, the model answers never_ends, since with the size zero the
-- loop of the program does not end. Other loops are over lists.
--
-- Not modelled: the creation of orders and of payments before their callback, the automatic
-- creation of payouts, the creation and the correction of royalty reports, the questionnaire of a
-- merchant, user profiles, products, the tariffs of a region and reports; the requests that the
-- adapters of payment systems send with their tokens, and the brokers, which are calls of other
-- programs; the methods of the protocol package on orders and callbacks, which are parameters; the
-- queries that the database sums up; the log.
pub mod Base
pub mod Strconv
pub mod Bufio
pub mod Response
pub mod Mongo
pub mod Memory
pub mod Floats
pub mod Handler
pub mod Settlement
pub mod Payment
pub mod Users
pub mod Accounting
pub mod Tariffs
pub mod Onboarding
pub mod Key
pub mod BankCard
