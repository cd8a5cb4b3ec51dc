-- ===== src/Lib.antt =====
-- The embedder worker of esp32-embedder/worker: the program on the ESP32 board Kata that takes jobs
-- from an SQS ingest queue, embeds them in passes of the model, and hands the results to Cal through a
-- second queue.
--
-- Parts, and the files that model them. Source files without a path are in esp32-embedder/worker.
--   Batch    batch.c, `batch_plan`: which queued messages go into a pass.
--   Kw       kw.c: `jbuf_t` (Kw/Jbuf), `jb_json_str` (Kw/Escape), base64 (Kw/Base64), the nesting check
--            (Kw/Depth), dates printed (Kw/Time) and read (Kw/Iso). A buffer is its bytes, its capacity and
--            `oom`; `jb_printf` is the put of the text that the call prints.
--   Prep     prep.c: `prep_json_nuls` and `prep_truncate`, over bytes.
--   Result   result.c, `result_encode`; Result/Laws has the message as one text.
--   Worker   worker.c and worker.h. Worker/Types has the records, Worker/Env what the worker calls;
--            then a file for each part of worker.c: Strict (strict JSON), Pool (finish, unembedded,
--            remove_job), Arrive (open_job, arrive), Rounds (the batch loops), Handoff, Visibility, TopUp,
--            Pass and Step (worker_step and the calls of other tasks). Worker/Waits has the bounds on
--            waits, Worker/Outage those without a network, Worker/Status the clocks that the heartbeat reads. Worker/Sound has the
--            invariant of the worker; its children follow it through each part, and Worker/Sound/Reach through whole runs.
--   Sqs      sqs.c: the replies, `batch_outcome` (Sqs/Outcome) and the messages of `sqs_receive`
--            (Sqs/Received), over `Reading`, which is what they use of cJSON, MD5 and the C library;
--            Sqs/Client has `sqs_init` and `call`, Sqs/Client/Calls the four operations, over `Wire`,
--            the transport, the clock and what signing uses of mbedtls.
--   Sigv4    sigv4.c: encoding and the canonical parts, and `sv4_sign` in Sigv4/Sign, which `call` of
--            Sqs/Client uses.
--   Creds    creds.c, over `Provider`, the HTTPS request to the credentials provider.
--   Http     httpreq.c, the HTTP of the status server: `httpreq_route` (Http/Routes), `httpreq_parse_ip`
--            (Http/Address, Http/Octets), `httpreq_parse_allow` (Http/Access) and `httpreq_peer_ok`
--            (Http/Peers).
--   Tok      esp32-embedder/tok/tok.c: the WordPiece tokeniser. Tok/Unicode has the table searches and
--            UTF-8, Tok/Vocab the vocabulary and its hash table, Tok/Encode the cutting of text
--            into ids, Tok/Encode/Spec a description of those ids without the buffers.
--   Age      age.c: the keys as text (Age/Bech32), the header's text (Age/Header), the chunks of the
--            payload (Age/Payload) and `age_decrypt` (Age/Decrypt), over `Crypto`, which is mbedTLS and
--            the allocator.
--   Fleet    the outbox of esp32-embedder/firmware/full/main/fleet.c, with `publish_outbox` of kata_worker.c
--            there, over `Poster`, which is `iot_post`.
--   Tests    runs on concrete inputs.
--
-- State. `Sys e` is the worker (`worker_t` as the record Worker, its pool a list), the state of what
-- surrounds it, and a log of what it did to the queues. `Env` is what surrounds it: the callbacks of
-- `worker_io_t`, the four SQS calls, the allocator, cJSON, age and the floating point, each of which
-- answers from a state of its own, so that every failure and every answer over time is some `Env`. A
-- `Contract` says what the proofs need of it: the tokeniser writes no more ids than it has room for, and
-- ReceiveMessage no more messages than asked for. Worker/Board fills `Env` with the tokeniser of Tok,
-- `age_decrypt` and the client of Sqs/Client. `Reach` is the states of a run: steps of the
-- worker's task, with `worker_set_sick`, `worker_request_park` and `worker_resume` between them.
--
-- Loops. The `for (;;)` loops over batches run on fuel, one more than the pool has jobs: each round marks
-- at least one job as tried (Worker/Rounds/Ends). `while (cap < need)
-- cap *= 2` runs on `need` as fuel, enough since each round adds one at least (`doubled_enough` of
-- Kw/Jbuf). `allow_from` and the loops of the tokeniser over text run on the length of the text, since each
-- round takes a byte at least; the binary searches on the length of the table; the
-- parameters of a query on the 32 that sigv4.c has room for; `hash_size` on 17, as 2 ^ 17
-- is above 2 * 0xFFFE; the probes of the hash table on its length, as a table built by `tok_init` is at
-- most half full (Tok/Vocab/Loads); the loops over an age file on the bytes that are left, and one more in the header, since
-- each round takes a byte at least (Age/Decrypt/Reads has that it is enough for the files that age writes).
-- Every other loop is structural.
--
-- Numbers. Lengths, counters and times are natural numbers without a bound, times from 1970 on; `delete_tries`
-- and `visible_until` are integers, since -1 has a meaning there. A float is its bit pattern.
--
-- Not modelled: the log, the release and the wiping of memory, the queue URLs (each call has its own queue),
-- a park request that arrives in the middle of a step (it counts as one before or after it), the allocation
-- in `worker_init`, the status report, the generated tables of the
-- tokeniser (the record `Tables`), metrics_line.c and the update commands, which are copies of another
-- project's files, and the rest of the firmware around the worker.
pub mod Prelude
pub mod Age
pub mod Batch
pub mod Creds
pub mod Fleet
pub mod Http
pub mod Kw
pub mod Prep
pub mod Result
pub mod Sigv4
pub mod Sqs
pub mod Tok
pub mod Worker
pub mod Tests
