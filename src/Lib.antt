-- ===== src/Lib.antt =====
-- gokits is a library of small, mostly independent Go packages. This development models the parts of it
-- that keep state or compute, as functions and records, and proves what each promises.
--
-- The parts and their files:
--
-- - gcollection/queue.go, a double-ended queue with a capacity, in Collection. Collection/Heap is the
--   heap of nodes that the pointers prev and next refer to; Collection/Deque has linkFirst, linkLast,
--   unlinkFirst, unlinkLast and unlink over it, and its children the doubly linked list that they keep;
--   Collection/Api the methods that never wait (OfferFirst, PollLast, PeekFirst, Contains, ...);
--   Collection/Bounded the specification, a list with a capacity; Collection/Calls one step for a call
--   of any of these methods, and the proof that the queue behaves as the list. The lock makes each
--   call one step, so an interleaving is a sequence of calls. Collection/Waiting has the methods that
--   wait (PutFirst, TakeLast, PollFirstWithContext, ...) over schedules of what others do meanwhile,
--   Collection/Iterator the iterators.
-- - gtime/timerwheel.go, a timer wheel, in Time: Time/Wheel has the slots, the calls that add and
--   cancel a timer, and the ticker's round: the cursor moves, the slot is fetched under the lock, and what
--   has expired is notified. Time/Wheel/Schedule says when a callback runs, over rounds into which no other
--   call falls; Time/Wheel/Cancel what a Cancel does before the fetch and between it and the notification.
-- - gcache/cache.go, a cache with expiration, in Cache: Cache/Lookup what a lookup finds after every
--   operation, Cache/Expiry the deletion of what has expired, Cache/Janitor the background goroutine.
-- - gcrypto/aes128.go, encryption under a root key and under work keys, in Crypto: Crypto/Primitives is
--   the interface of the Go packages, Crypto/Aes the code, its children the padding and the round trips.
-- - gcrypto/pbkdf2.go, keys derived from passwords, in Crypto/Pbkdf2: Crypto/Pbkdf2/Reference is RFC 2898's
--   definition, Crypto/Pbkdf2/Compare the comparison of a password with a key in hexadecimal.
-- - grand/rand.go, random strings and identifiers, in Rand: Rand/Uuid the UUID's bits, Rand/Draws the strings.
-- - gid/gstack.go, the number of the goroutine out of its stack trace, in Gid.
-- - gconcurrent/worker.go, a pool of workers, in Worker: how many workers it starts (Worker/Growth), what a
--   worker counts of its jobs (Worker/Jobs), and in Worker/Pool the queue, the workers and Shutdown as a
--   step relation, with its invariant in Worker/Pool/Holds, where each job is in Worker/Pool/Accounts and
--   the ways it ends in Worker/Pool/Shutdown.
-- - gconcurrent/cond.go, a condition variable whose wait can be interrupted, in Cond: a step relation on
--   the list of waiters and their channels, its invariant in Cond/Holds, interruption in Cond/Interrupts.
-- - gslice/slice.go, conversions of and searches in slices, in Slices.
-- - gnet/listen.go, a listener that limits the connections, in Net: Net/Listener the counter, the
--   semaphore and Accept and Close; its children the limit and how it is lost. gnet/backoff.go, the delay
--   before a retry, is in Net/Backoff, and gnet/ghttp/error_wrapper.go, errors as responses, in Net/Http.
-- - gnet/gemail/email.go, mails with attachments, in Email: the text that is sent, its lines in Email/Lines and
--   those that delimit its parts in Email/Delimiters; Email/Attach the files and the recipients.
-- - grate, an adaptive limit on the requests in flight, in Rate: Rate/Sample and Rate/Vegas are the
--   measured limit (sample.go, vegas.go), Rate/Codel the queue of requests above it (codel.go), with
--   its decisions in Rate/Codel/Judge and its packets in Rate/Codel/Queue, and Rate/Limiter Allow and
--   the function that it returns (limiter.go). Rate/Limiter/System runs any sequence of requests.
-- - gls, storages that belong to goroutines, in Local: Local/TimeMap is the map in 64 buckets
--   (internal/time_map.go), Local/TimeMap/Flat one map that it behaves as, Local/Storage the functions
--   of gls.go over storages that are shared by reference, and what Go and With do to them.
-- - gstr, in Strings: join.go, lists of integers as text, in Strings/Join; human_bytes.go, numbers of bytes as
--   people write them, in Strings/HumanBytes.
-- - gref/reflect.go, the text of a reflected value and whether it is empty, in Reflection.
-- - Prelude: names, lists, Boolean tests, association lists for Go maps, 32- and 64-bit words, lines of text.
--
-- The packages do not call each other, but for the queue, whose waits rest on gconcurrent/cond.go: in
-- Collection/Waiting a wait is a round of a schedule. What is not in the repository is an argument. The clock
-- is a time given to an operation, the random reader the bytes it reads, the inner listener's answer a
-- Boolean, the stack trace a list of bytes, grate's random numbers and a goroutine's address a number.
-- The block cipher, its CBC modes, HMAC and base64 are a record with their documented laws, and so are hex
-- digits, float64, strconv with strings, the groups of a regular expression, and the response writer of
-- net/http; the tests have an instance of each. A mutex that a method holds from its first access to its
-- last makes the method one step.
--
-- Numbers: the int32 counters, the wheel's int64 round and parseUintBytes' uint64 keep their wrap-around.
-- The cache's times are within int64, which time.UnixNano asks of them. The walks over
-- the queue's nodes have fuel one more than the queue's count, which is enough because the count is the
-- number of linked nodes; calKey runs its 5000 rounds; GoID reads the 64 bytes that its buffer holds.
-- The times and counts of grate are natural numbers, within int64 as long as clocks and delays are.
--
-- Not modelled: the worker's getters and the names of its goroutines; RangeRand of grand; the statistics that
-- grate reports; gfile, and gstr's strings.go.
-- gcollection/iterator.go is an interface only. The assembly of gls is not Go.
pub mod Prelude
pub mod Cache
pub mod Collection
pub mod Cond
pub mod Crypto
pub mod Email
pub mod Gid
pub mod Local
pub mod Net
pub mod Rand
pub mod Rate
pub mod Reflection
pub mod Slices
pub mod Strings
pub mod Time
pub mod Worker
