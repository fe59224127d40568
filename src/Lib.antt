-- ===== src/Lib.antt =====
-- A model of TrigEmit-Kafka, the MariaDB module that sends messages to Kafka, and its properties.
--
-- The program has three layers. kafka-engine.c wraps librdkafka: one producer for the process, with a
-- poll thread, a handle and a record with counters per topic, and the callback that every delivery
-- report reaches. kafka-table.c keeps the one table of the process behind a lock: the producer, the
-- parameters for it, the registered topics and the retired ones, whose records queued messages may
-- still name. The kafka-cmd-*.c files are the SQL functions over the table: they check the arguments,
-- copy them into buffers of fixed size, and turn the results of the table's calls into answers.
--
-- Env is librdkafka, the allocator, the clock and thread creation, as any behaviour that `Laws` admits:
-- what librdkafka documents about its out queue and delivery reports. Calls are numbered, so that the
-- same call can turn out differently each time; the timeout of a poll or a flush is no argument, since
-- each may come back with any part of the reports, or with none. The server's MYSQL_ERRMSG_SIZE is a field of Env, and
-- GIT_COMMIT_ID, which the build fills in, is an argument of kafka_info(). Machine is the memory: topic
-- records and producers on a heap by address, the table (`kt` of kafka-table.c) and stderr, one `LogLine`
-- per message. A program is a function of it that ends with a result, in undefined behaviour (`fault`),
-- or out of fuel. Machine/Returns has the two predicates on runs, and Machine/Args the arguments of the
-- SQL functions.
--
-- Which file models what:
--   Engine/Delivery       dr_msg_cb and the throttled log, kafka-engine.c 25 to 86
--   Engine/Producer       tek_kafka_producer_* and the poll thread, kafka-engine.c 88 to 296
--   Engine/Topics         tek_kafka_topic_*, kafka-engine.c 298 to 440
--   Table/Slots           kafka_table_grow, kafka-table.c
--   Table/Params          kafka_table_validate_param, _set_param, _unset_param, kafka-table.c
--   Table/Describe        kafka_table_describe_params, _get_brokers, kafka-table.c
--   Table/Registry        find, reap, remove, create, exists, send, dismiss, stats, kafka-table.c
--   Table/Sharing         kafka_table_send and kafka_topic_get_stats as threads that share the lock
--   Table/Connection      connect, dismiss_all, shutdown and the destructor, kafka-table.c
--   Machine/Args          UDF_ARGS and the copies of arguments; the limits of config.h.in
--   Udf/Connect           kafka_connect, kafka-cmd-connect.c
--   Udf/Disconnect        kafka_disconnect, kafka-cmd-disconnect.c
--   Udf/Send              kafka_send, kafka-cmd-send.c
--   Udf/Param             kafka_connection_param, kafka-cmd-param.c
--   Udf/Info              kafka_info, kafka-cmd-info.c
--   Udf/Stats             kafka_stats, kafka-cmd-stats.c
-- A function keeps its name in the source, without the prefix kafka_ or tek_kafka_ below the SQL
-- functions; a function of the source that is long is several definitions, each with the lines that it
-- models. Engine/Delivery/*, Table/Params/*, Table/Describe/Text and Udf/Reading prove things of
-- single components.
--
-- Two files state what is promised. Contract is kafka-table.h in terms of what a session can tell of
-- the table, its `View`: whether there is a connection, the parameters as a map, the registered
-- topics as a set. Udf/Statement is the same for the SQL functions that return a number. Safety has
-- the invariant of the memory, one module for each group of calls that keep it, and the proofs of
-- the promises: Promises for each call of the table, Sessions for the states that all of them reach,
-- Sharing for the threads of Table/Sharing, and Functions for the SQL functions. Account says which
-- messages a topic record has: those that name it in librdkafka's out queue, and those that its
-- counters have seen. Each module of Safety says what its calls do to them; Counting and Accounting
-- put that together for each call of the table, and Functions/Accounting for each SQL function;
-- History adds it up over all of them since the server loaded the module, beside the number of
-- messages that each topic took. Examples applies the theorems to a small librdkafka.
--
-- Conventions and bounds. A pointer that may be null is an Option. Strings are values, so that their
-- memory is not modelled; sizes are natural numbers; counters wrap at 2 ^ 32; error codes are bit
-- patterns. The arguments of the SQL functions are counted bytes, and a copy into a buffer that is
-- too small, or of more bytes than there are, is a fault; a C function sees of the copy what stands
-- before its first 0. An address is never given out twice, so that a use after free is always seen.
-- Since counters wrap, sums of messages are equal modulo 2 ^ 32. The fuel is that of the retry loop
-- of tek_kafka_topic_feed_key() alone, which has no bound in the source: it retries while the queue
-- is full. Safety is stated for any fuel. Safety/Responsive gives a fuel that is enough where the
-- broker may be down: message.timeout.ms bounds how long a message waits for its report, and so how
-- many polls in a row come back without one, `patience`. With that, (messages queued + 1) *
-- (patience + 1) turns are enough. The other calls have no fuel.
--
-- Threads. ktlock is a read/write lock. The calls that write the table are one step each. So are
-- those that only read it, except in Table/Sharing, where any number of threads in
-- kafka_table_send() and kafka_topic_get_stats() take their steps in any order: a search, one turn
-- of the retry loop, the flush, and the read of each counter are steps of their own; a schedule is a
-- list of thread numbers. A poll thread is there from tek_kafka_producer_run() until pthread_join(),
-- whatever the table says, and is seen in rounds, each of which is one step between others, with one
-- more while pthread_join() waits; to free its producer before that is undefined behaviour. An SQL function is one step too, save that
-- Udf/Among has kafka_send() with calls of other sessions between its own. History has statements,
-- single calls, rounds and shared runs of threads.
--
-- Not modelled: data races within a step, and poll rounds within a call that writes the table;
-- debug_print(), since DEBUG is 0 in builds, and the _deinit() functions that do nothing else; the
-- build files, the SQL scripts and the tests. Of kafka.h the macros that the code uses are modelled;
-- the rest, like that of the other headers, is includes, prototypes and the attributes of the
-- compiler.
pub mod Base
pub mod Env
pub mod Machine
pub mod Engine
pub mod Table
pub mod Udf
pub mod Contract
pub mod Safety
pub mod Examples
