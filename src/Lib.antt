-- ===== src/Lib.antt =====
-- obarena: a verification library of the services of this repository.
--
-- obarena lets teams submit a matching engine, builds it, runs it in a sandbox, trades against it and
-- ranks it. The services are Go processes that pass events over Kafka topics and share Redis.
--
-- Engine           services/stub/main.go, the reference matching engine.
--   Heap           container/heap as the book uses it: `up`, `down`, `fix`, `push`, `pop`, `remove` over
--                  the slice, the swap keeping each order's `index`.
--   Clock, Message `now`, and the messages of a session.
--   Book           `Orderbook` and its methods `match` (`match_order`), `rest`, `remove` and
--                  `cancelSession`.
--   Session        `handleOrder`, `handleCancel`, and `streamHandler`: its read loop and what it does
--                  at the end of a session. A handler returns the messages it sends and the new book.
--   Queues         What the engine promises: two queues of orders by price and time, and the replies.
--                  Its children prove that the book refines them.
--   Stream         `streamHandler`, `writeLoop` and the channel between them, as one schedule of moves.
--   Levels         `orderbookHandler`: the sums by price, then the sort.
-- Runner           services/bot-runner.
--   Sequence       sequence.go.
--   Bot            `Bot.Run` of bot.go: its three goroutines as one schedule of events.
--   Metrics        `merge` of metrics.go.
--   Main           main.go: the settings, the sequences, the quorum of the warm-up; Publish has the
--                  phases of `run` and `publishMetrics` of publisher.go.
--   Correctness    correctness_bot.go, over a `Service`, the interface of what the bot talks to;
--                  Stub fills it with the engine, its session and its messages.
-- Build            services/build-service.
--   Logs           `limitWriter` and the reading of logs in builder.go, with `io.Copy` over chunks.
--   Truncate       `truncate` of publisher.go.
--   Lifecycle      `Build`, `waitForPodCompletion`, `readPodLogs` and `cleanupPod` of builder.go;
--                  `handleRecord` and `Run` of consumer.go.
--   Pod            `createBuildPod` of builder.go.
-- Orchestrator     services/bot-orchestrator.
--   Jobs           `Handle`, `runTest`, `waitForJob` and the deletions of orchestrator.go.
--   Server         `runHandler`, `statusHandler` and the consumer's handler of main.go, as a schedule.
--   Consumer       `Run` of consumer.go on one partition, with the offset of the group.
--   Settings       the settings of main.go and the job of `runTest`; Handover reads the environment of
--                  the job with the settings of Runner.Main.
-- Telemetry        services/telemetry-ingester.
--   Score          `computeScore`, over `Float64`, the interface of float64.
--   Ingester       `Handle`, `updateLeaderboard` with its script, and `flush`.
--   Table          `writeBatch`: the two tables of PostgreSQL.
--   Consumer       `Run` of consumer.go on one partition, beside the flushes.
--   Connect        `NewIngester`, `connectRedis` and `connectPostgres`.
--   Shutdown       `Close`, and the end of `run` of main.go.
-- Sandbox          services/sandbox-orchestrator: `Deploy` and its parts of orchestrator.go,
--                  `handleRecord` of consumer.go.
--   Consumer       `Run` of consumer.go on one partition, with the offset of the group.
--   Pod            `createSandboxPod` of orchestrator.go.
--   Settings, Logs The settings of main.go, and the reason of a failure with `collectPodLogs`.
-- Submission       services/submission-api/handler.go: `handleSubmitInit` and `handleConfirm`, and
--                  `PublishSubmissionCreated` of publisher.go.
--   Race           `handleConfirm` as the steps of two requests at once.
-- Leaderboard      services/leaderboard-ws.
--   Hub            hub.go: `Hub.run`, `broadcast` and `wsHandler` as one schedule of the channel
--                  operations; a panic is the result `none`.
--   Ranking        `buildSnapshot` of hub.go and `leaderboardHandler` of main.go.
-- Config           `envStr`, `envStrSet`, `envInt`, `envInt64` and the list of brokers, as the main.go of
--                  the services have them.
-- Pods             the Kubernetes objects that Build.Pod, Sandbox.Pod and Orchestrator.Settings make.
-- Prelude          the shared names: tests on numbers, lists, association lists.
--
-- Memory. Orders are shared by the heaps and the map, so an order is an address: `objs` holds what is
-- never written after the order is made, `remaining` and `index` what is. A map is an association
-- list with distinct keys, whose order stands for the order in which Go visits the map.
--
-- Numbers. Quantities and times are natural numbers, `quantity` of a message is an integer. A price is
-- a float64 that only comparisons read, so it is its rank among the float64s, with 0 at 2^63; NaN
-- does not occur in JSON. `float64` is the place of a whole number. The quantity of a level is an
-- int64 by its bits, since it is a sum. The score is over an interface for float64. Wall clock
-- readings are an arbitrary function of the number of the reading.
--
-- Loops. The sift loops of the heap run on fuel that the length of the slice bounds. `match_loop` has
-- one round more than the opposite side has orders: each round but the last takes an order off that
-- side. The reads of a step of the correctness bot run on the number of reads that its deadline has
-- room for. An attempt to connect is an element of a list; a list that is used up leaves the loop in
-- its retries. All other loops are structural, or take an element off a list in each round and have
-- its length as rounds.
--
-- Outside. The uuid, the presigned url, the broker, Redis, the JSON decoder and the clock are
-- arguments. The statements of a batch are one transaction of PostgreSQL. Of strconv and strings the
-- decimal numbers of an int64, and Split, Join and TrimSpace on ASCII spaces are definitions, as the
-- language documents them. Kafka keeps the offset after the record that was committed last, and a
-- consumer that starts goes on from there. Not modelled: HTTP encoding, logging, the wiring of the
-- processes and the settings of those that only pass them on, the Kubernetes, S3, PostgreSQL and Kafka
-- clients, and generated code.
pub mod Prelude
pub mod Config
pub mod Engine
pub mod Submission
pub mod Leaderboard
pub mod Pods
pub mod Runner
pub mod Build
pub mod Orchestrator
pub mod Telemetry
pub mod Sandbox
