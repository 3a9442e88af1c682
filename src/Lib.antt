-- ===== src/Lib.antt =====
-- Cross-border logistics: the order, payment and warehouse services of backend/, the outbox worker,
-- the quotation, notification and admin services.
--
-- A customer gets a quotation, orders from it, pays a deposit and later the remaining balance.
-- Each service keeps its tables in its own database and writes its events to an outbox table in
-- the same transaction; a worker publishes the outbox to Kafka, and the consumers of the other
-- services apply the events. The payment service learns of a transfer by a webhook of the payment
-- provider; its event moves the order on, as the event of a received package does.
--
-- Files, with the code that each models:
--   Prelude, Prelude/*: results, transactions, tables as lists, int64 arithmetic, sequences of steps,
--     and their laws.
--   Go: strings.TrimSpace and strings.Split, and in Go/Numbers strconv.ParseInt and FormatInt.
--   External: github.com/google/uuid and uuid columns, as parameters.
--   Event: backend/pkg/event/event.go, with encoding/json as a parameter (Codec).
--   Outbox/Table: the table outbox_events and the statements of FetchUnpublished, MarkPublished
--     and MarkFailed.
--   Order/Domain, Order/Ports: backend/internal/order/domain/order.go and ports/ports.go; the
--     record Db is the tables of backend/migrations/order.
--   Order/Repository: backend/internal/order/adapters/postgres/repository.go; `create` is Create,
--     `process_status_event` is processStatusEvent, and so on. Order/Repository/Create and
--     Order/Repository/Queries hold the other methods, Create/Stored and Events their proofs.
--   Order/Service, Order/Service/Handlers: backend/internal/order/application/service.go;
--     Service/Money, Service/Creation and Handlers/Effects hold proofs.
--   Order/Consumer: backend/internal/order/adapters/kafka/consumer.go and warehouse_consumer.go.
--   Order/History: sequences of requests, events and publishing, from the empty tables; History/Audit
--     and History/Timeline hold proofs on the tracking events, History/Redelivery on events that are
--     delivered again, History/Recreated on orders that are created again, History/Statuses on the
--     statuses that are reached.
--   Payment/Domain: backend/internal/payment/domain/payment.go and ports/ports.go; the record Db
--     is the tables of backend/migrations/payment.
--   Payment/Repository: backend/internal/payment/adapters/postgres/repository.go; its children
--     Stored, Success, Effects and Webhook hold proofs.
--   Payment/Service, Payment/Service/Success: backend/internal/payment/application/service.go;
--     Service/Creation and Service/Webhook hold proofs.
--   Payment/Http, Payment/Http/Callbacks, Payment/Http/Routes: adapters/http/handler.go of
--     backend/internal/payment; the callbacks of the provider are in Callbacks, `New` is
--     `new_handler` and Routes. Callbacks/Authentic, Callbacks/Amounts and Http/Security hold
--     proofs; Security puts the payment service behind the handler.
--   Payment/History: sequences of calls of the payment repository, from the empty tables;
--     History/Counts, History/Kept and History/Redelivery hold proofs.
--   Outbox/Worker: backend/pkg/kafka/outbox.go; Worker/Delivery holds proofs.
--   Quotation/Domain, Quotation/Price: backend/internal/quotation/domain/quotation.go; Calculate is in
--     Domain, ParseSourcePrice and FormatSourcePrice are in Price; Domain/Amounts, Price/Digits and
--     Price/RoundTrip hold proofs. The loop of strconv.FormatInt has fuel for 19 digits, which every
--     int64 fits.
--   Quotation/Repository, Quotation/Service: adapters/postgres/repository.go and
--     application/service.go of backend/internal/quotation; Repository/Confirmation and
--     Repository/Stored hold proofs.
--   Quotation/Rates: admin_rates.go, http_rates.go and mock.go of
--     backend/internal/quotation/adapters.
--   Quotation/Extraction/Hosts, Safety, Client, Routing, Config: host_matcher.go, url_safety.go,
--     http_client.go, routing_extractor.go and config.go of
--     backend/internal/quotation/adapters/extraction; Client holds a proof too, as
--     Extraction/Addresses does.
--   Warehouse/Domain, Warehouse/Repository, Warehouse/Service: backend/internal/warehouse, and the
--     tables of backend/migrations/warehouse; Repository/Stored, Service/Receiving and
--     Service/Accepting hold proofs.
--   Http: the answers of backend/pkg/httpx/response.go.
--   Order/Http, Warehouse/Http, Quotation/Http: adapters/http/handler.go of the three services.
--   Notification/Hub, Notification/Service: backend/cmd/notification-service/main.go; the hub and
--     its channels are in Hub, the consumer and the requests for streams in Service. Hub/History,
--     Hub/Bounds, Hub/Replay, Hub/Streams, Hub/Delivery, Service/Consumed and Service/Spelling hold
--     proofs.
--   Admin/Domain, Admin/Service, Admin/Config, Admin/Vietcombank: domain/rates.go,
--     application/service.go, adapters/config/provider.go and adapters/vietcombank/provider.go of
--     backend/internal/admin; Admin/Currencies holds the loops over currencies that they share.
--     Service/Answer, Config/Loaded, Vietcombank/Cache and Vietcombank/Answers hold proofs.
--   Tests: runs at concrete inputs.
--
-- How the code is modelled. A table is a list of rows in the order of insertion; a transaction
-- works on a copy that only a commit keeps. Each call of a database can fail: a test on the kinds
-- of call (`down`) says which do. A commit that fails is taken to have changed nothing. Primary
-- keys, unique indexes and checks of the migrations are errors of the inserts. Two transactions on
-- one row are serial, since the code locks the row or the row's key. Times are numbers; `time.Now`
-- and random UUIDs are arguments; a fresh UUID that is taken already is an error of the insert.
-- Amounts are int64, whose operations wrap; a float64 is a dyadic number, an infinity or a NaN. The
-- rounding of NUMERIC columns and strings.ToUpper are parameters, and so are the services that a
-- service calls over HTTP. The lengths of the VARCHAR columns and the form of the JSONB columns are
-- not enforced: the services put constants, marshalled JSON and currencies that have a rate there.
-- The consumers' loops take the rounds that happen before their context is cancelled, a list in
-- which each round has its own failures, time and UUIDs, so that they need no fuel.
--
-- Not modelled: HTTP servers and the HTTP clients between services, the Kafka client, configuration,
-- logging, the running of migrations, and the adapters of payment providers, which are input and
-- output; the check of the endpoint of the admin service; the fetching of product pages and the
-- reading of their metadata; the frontend.
pub mod Admin
pub mod Event
pub mod External
pub mod Go
pub mod Http
pub mod Notification
pub mod Order
pub mod Outbox
pub mod Payment
pub mod Prelude
pub mod Quotation
pub mod Tests
pub mod Warehouse
