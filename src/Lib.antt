-- ===== src/Lib.antt =====
-- A verification library of the RabbitMQ client: models of its components, and theorems on them.
--
-- The program. A facade (src/index.js) joins a connection that reconnects, a pool of channels on it,
-- publishers with rate limiting and a circuit breaker, and consumers that settle what they are
-- delivered. The components call each other's methods, and share no state but through them. All
-- of it runs on one thread: a method runs without interruption up to its next `await`. So each
-- component here is a state and a function for each method, or for each part of a method between two
-- awaits. What comes back from an await (a dial, a timer, a handler, a channel's 'close') is an event,
-- and an interleaving is a list of events. Whatever a method does besides (promises that settle,
-- events that it emits, commands to the broker) is in its result. An event for which nothing is
-- waiting changes nothing.
--
-- The parts and their files. Paths are from the repository's root.
--   Base: names passed on, Boolean tests, lists, the JavaScript Map (Base/Map), sums (Base/Tally).
--   Limits, of src/resilience:
--     TokenBucket, FixedWindow, WindowLog: the strategies of strategies/token-bucket.js,
--       fixed-window.js, window-log-strategy.js (with sliding-window.js and leaky-bucket.js): init,
--       check (occupy), remaining, cleanup, reset, clear. Keys are any type with an equality.
--     Limiter: rate-limiter.js over one of the four: check_rate_limit is checkRateLimit, and so on.
--   Connection, of src/connection:
--     Machine: connection.js. connect_step is connect, dial_succeeds_step and dial_fails_step are the
--       loop of #doConnect after its await, schedule_reconnect, start_reconnection, timer_step
--       (#attemptReconnect), disconnect_step and close_settles_step (disconnect).
--     Channels: channel-pool.js. get_channel, claim (#createPoolChannel), try_again and wakes_step
--       (#replacePoolChannel), channel_closes_step, and the dedicated channels.
--   Consumers, of src/consumers:
--     Sequential: sequential-processor.js. handle, release (#processDependents), succeed and fail
--       (#process after its await), cleanup.
--     Workers: worker-pool.js. acquire, release, spawn, leave and exit_event (the 'exit' listeners).
--     Registry: of consumer-manager.js the registration of consumers, their tags, their set-up, the
--       recovery of one that is lost, unsubscribe, recreateAll and disposeAll.
--     Ordered: subscribeSequential, the processor of Sequential with what it settles on its channel.
--     Parallel: the worker pools that subscribeParallel owns, by their subscription.
--     Retry, Settling, Prefetch: the parts of consumer-manager.js that decide on a requeue, that settle
--       deliveries and count those in flight, and that tune the prefetch.
--   Messaging, of src/messaging:
--     Publisher: publisher.js. admit is what each method checks before it publishes (preflight,
--       applyRateLimit), run_publish the tries of publish. Batch: publishBatch, for any number of tries.
--     Routable: routable-publish.js. Topology: createQueue, moveToDeadLetter and the probe for the
--       delay plugin of topology.js. Codec: message-codec.js.
--     Rpc: the requester of rpc.js (request, #handleReply, #settlePending, handleConnectionLoss).
--     Responder: respond of rpc.js, for one delivery.
--   Facade, of src/index.js:
--     Session: connect, #doConnect, #restoreState, #handleReconnection, #handleDisconnection and
--       disconnect, with the connection and the pool under them.
--     Cache: publishWithCache and the methods of the cache, over an interface of the store.
--   Tests: runs at concrete inputs.
--
-- Numbers. Times, costs and limits are whole numbers. Where the source divides (a refill rate, a
-- factor) the model is exact: the token bucket counts in fractions of a token, and the prefetch factors
-- are fractions. Floating-point rounding is not modelled. No number is bounded: the source's are
-- doubles, and none of the theorems goes near 2 ^ 53.
--
-- Fuel. Loops are recursion on the data that they go through, and retries on the number of attempts.
-- Only the count of deliveries (Consumers/Retry/Deliveries) takes fuel, and its theorems hold for
-- every fuel from the budget on.
--
-- Outside the model. The broker, amqplib, worker threads, timers and the clock are the environment:
-- what they do is in the events, in any order. Handlers and listeners are too; onSuccess, onFailure
-- and the emitters do not throw. What a queue writes on a redelivery is a parameter, with its
-- documented behaviour as hypotheses. Log lines are left out. The serializer, UTF-8 and gzip are
-- parameters as well, and so is the store of the cache, with what its package documents. The retry
-- policy and the breaker are packages too: how a try ends is an argument. Not modelled are the
-- adapter of the circuit breaker, the utilities, the assertions of exchanges in topology.js, the options
-- of an RPC request, the graceful shutdown (process listeners), and the methods of the facade that pass
-- their arguments on.
pub mod Base
pub mod Limits
pub mod Connection
pub mod Consumers
pub mod Messaging
pub mod Facade
mod Tests
