-- ===== src/Lib.antt =====
-- Verification library of the trading bot's data server (data_server, written in Go).
--
-- The program has two halves. Package bitso (data_server/bitso) is a client of a currency exchange:
-- data types that travel as JSON and as columns of a database. Package websocket (data_server/ws)
-- is a server: clients connect, log in and send commands, and a manager keeps the connected clients
-- and the users that are logged in. The halves share no state. Around the first half stand a page
-- that forwards the exchange's messages and saves prices, two strategies, and the HTTP routes.
--
-- Files, and the code that they are about:
--   Common.antt, Common/*: shared lemmas, Go's results (`Outcome`), texts as code points, maps as
--     association lists, and tables of names read both ways.
--   Bitso/Enums/{Side,Status,Operation,OrderType}.antt: data_server/bitso/side.go, status.go,
--     ledger.go (the operations) and order_type.go. `String` is `side_string` and so on,
--     `fromString` is `side_from_string`, `MarshalJSON` and `UnmarshalJSON` are `marshal_…` and
--     `unmarshal_…`, `Value` and `Scan` are `…_value` and `scan_…`. A parser goes through a Go map,
--     whose order is not fixed: the order is an argument.
--   Bitso/Currency.antt, Bitso/Book.antt, Bitso/Tid.antt: data_server/bitso/currency.go, book.go
--     and tid.go. `strings.ToLower` is written out on ASCII, and is a parameter beyond; a 64-bit
--     number keeps its wrap-around.
--   Bitso/Client.antt, Bitso/Client/{Api,Endpoints,Limiter}.antt, Bitso/Atoi.antt:
--     data_server/bitso/client.go and envelope.go. The libraries that the client calls are the
--     record `Libraries`; the clock, the goroutines that give tickets back and the requests sent so
--     far are the record `World`. Signing, Spacing and Results hold the laws.
--   Bitso/Websocket.antt: data_server/bitso/websocket.go, the goroutine that reads the exchange's
--     messages, its inbox and the receiver. The connection and JSON are the record `Decoding`.
--   Bitso/Websocket/Structs.antt, Messages.antt, Messages/Numbers.antt: the structs of that file and
--     how a message is decoded into them, which gives a `Decoding`. The syntax of JSON, `interface{}`
--     and float64 are the record `WireFormat`; integers are read digit by digit, with their bounds.
--     Messages/Sent.antt has the messages as the exchange writes them.
--   Bitso/Order.antt: the orders of data_server/bitso/order_book.go as JSON objects; an object is its
--     fields in their order. Bitso/Ranges.antt: what the parsers can give.
--   Bitso/Time.antt, Bitso/Time/Digits.antt: data_server/bitso/time.go. `time.Parse` and `Format` are
--     written out for the elements of the three layouts; a time is its date, its clock and its
--     offset in minutes, and years before 0 are left out.
--   Bitso/Value.antt, Bitso/Payload.antt, Bitso/Answers.antt, Bitso/Answers/*: the structs that the
--     exchange's answers are decoded into (trade.go, order_book.go, exchange_order_book.go,
--     ticker.go, balance.go, fee.go, funding.go, withdrawal.go, ledger.go), and what encoding/json
--     does with them. Keys match whatever their case. The syntax of JSON is the record `Parsing`, and
--     `interface{}` the record `Dynamic`. Answers/Calls.antt gives each call of client.go its struct
--     (`perform`); Sound, Calm, Readers, Laws and Returned hold what is shown.
--   Ws/Channel.antt: Go's buffered channels. A piece of code is done, blocks, or panics (`Run`).
--   Ws/Key.antt, Ws/Client.antt, Ws/Manager.antt, Ws/Manager/Events.antt:
--     data_server/ws/websocket/client.go and client_manager.go. A pointer to a client is a number,
--     and the manager's `heap` gives the object, so that two maps can lead to one client. The clock
--     is an argument. The locks are not modelled: each method holds its lock from its start to its
--     end.
--   Ws/System.antt: the goroutines of the server as events, with one loop of the manager whose
--     handlers nothing comes between; a history is a list of events in any order, of any length. A
--     goroutine that waits has no step: such a run is `blocked`. Ws/System/Loops.antt and
--     Ws/System/Goroutines.antt are finer: the code starts a loop of the manager for each
--     connection, and there any number of loops, and of logins of AuthController, go on by turns,
--     one call of a method at a time.
--   Ws/Code.antt, Ws/ErrorCode.antt: data_server/ws/common.
--   Ws/UserSrv.antt: data_server/ws/websocket/user_srv.go and the platforms of init_acc.go.
--   Ws/Process.antt: data_server/ws/websocket/acc_process.go. Package models and the encoding of
--     JSON are not part of the repository: the record `Wire` stands for them.
--   Ws/Controllers.antt: data_server/ws/websocket/acc_controller.go, with the database and
--     package models as the record `Backend`, which holds their answers at the time of the call.
--     Ws/Controllers/Rooms.antt and Profiles.antt have the other handlers, with the records `Rooms`
--     and `Accounts`; what a handler hands to the database is a part of its result. Quiet and
--     Laws/EndToEnd are about all handlers, and about a login from its message on.
--   Ws/System/Directory.antt: what the manager promises, without its maps' order or the queues.
--   Ws/ServerIp.antt: data_server/ws/helper.
--   Trading/Store.antt: data_server/database, repository/crud and utils/channels; the driver is the
--     record `Cassandra`. A chain of calls returns, waits, panics or ends the program (`Fate`).
--   Trading/Socket.antt: data_server/controllers/socket_controller.go and feclient/websocket.go; the
--     connections and JSON are the record `Outside`. The messages that arrive before each round of
--     the handler's loop are a list, and the list of these lists is as long as the loop may run; what
--     the inbox has no room for waits for a later round.
--   Trading/Strategy.antt: data_server/strategy and data_server/controllers/balance_controller.go, over the
--     record `Floats`.
--   Trading/Printing.antt: balance_controller.go and funding_controller.go of data_server/controllers,
--     and the programs print-balance and get-fundings of data_server/_examples.
--   Trading/Web.antt: data_server/router, middlewares, config, api and utils/console.
-- Other laws, invariants and runs at concrete inputs stand in child modules (Laws, Users, Broadcast,
-- Delivery, Timeouts, Fifo, Invariant, Ending, Reading, Tests).
--
-- Loops go through a list, so that only the printing of numbers takes fuel: one more than the number
-- is more than the count of its digits. Channels hold as many values as in the code: 1 ticket, 8
-- messages of the exchange, 100 messages for a client, 1000 events of each kind.
--
-- In the client of the exchange a request and its nonce are of the moment at which the call began
-- (`began`), which may be long before it has its ticket. The timer that gives the ticket back starts
-- at the moment at which the ticket is had, and the log of requests gives that moment; client.Do comes
-- after it, how long after is not modelled, so that the spacing of requests is that of their tickets.
--
-- Not modelled: what is logged; the sockets, of which a client records only whether it was closed;
-- packages that the repository does not hold (models, cache, database drivers), which are parameters;
-- package operations, which does not compile; the table of commands in ws/routers/acc_routers.go,
-- which is commented out; the program _examples/websocket.
mod Common
pub mod Bitso
pub mod Ws
pub mod Trading
