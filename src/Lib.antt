-- ===== src/Lib.antt =====
-- The backend of Ayo-SNBT, a learning platform with paid courses and timed try-outs: models of
-- its services, and theorems about them.
--
-- The program is a Fastify server with a PostgreSQL database, Redis, a job queue and object
-- storage. Routes call services; a service reads and writes tables, throws `AppError`s, and
-- queues jobs that a worker hands back to services. A service call is a function on the tables
-- that it touches, whose outcome holds the tables after it beside the value returned or the error
-- thrown (Common/Action). What a call wrote before it threw stays, since the services open no
-- transaction, but for those of the question bank: an import that throws leaves the tables as
-- they were, and its other calls write nothing before a throw, their texts being taken to fit in
-- their columns. A statement of a call is a step of the function, in the source's order, guards
-- included. Values that are new in a call (ids, random tokens, the clock) are its arguments; ids,
-- addresses, hashes and times are natural numbers, and a uuid that the database makes is a number
-- that is fresh.
-- Paths are those under the folder src of the repository.
--
-- - Common: tests on numbers, table operations (select, first, update), calls, keyed tables,
--   texts.
-- - Payments: modules/payments/service.ts with its tables (shared/db/schema/payments.ts,
--   coupons.ts). Data has the tables; CouponCode and Coupons have createCoupon and the coupon
--   part of createOrder; Orders has createOrder, getOrder, fulfillOrder and refundOrder; Bundles
--   has createBundle, updateBundle and getBundle; Webhook has handleWebhook; Step makes one step
--   of each call on orders and coupons, and runs of steps. Moves, Adds, Calls, Status, Requests,
--   CouponLimit, Amounts and Effects have the proofs. The payment provider is a parameter, its
--   answers `none` where it fails.
-- - Simulations: modules/simulations/service.ts and processor.ts. Start has startSession,
--   Sessions has saveAnswer, flagAnswer, submitSession, practiceAnswer and finishPractice,
--   Practice has startPractice and getPracticeSession, Packages the calls on packages, Scoring
--   and Grading have gradeSession, autoSubmit and computeRank, Views has getResult,
--   getLeaderboard and getReview, and Shuffle has shuffle.ts; Step makes runs of the calls on
--   sessions. Final, Graded, Attempts, Stuck, Overlap, Scoring/Counts, Views/Ranked and
--   Shuffle/Permutes have the proofs. The random order of the question bank is a parameter.
-- - Auth: modules/auth/service.ts and shared/auth/lockout.ts. Tokens has refresh, logout and
--   their helpers, Accounts has register, verifyEmail, login, forgotPassword and resetPassword,
--   Lockout the computation of the lock, Oauth has oauthLogin. Family, Locked and Oauth have the
--   proofs. Hashing and password checks are parameters, and so is what Redis answers to the
--   counter's increment.
-- - Access: shared/rbac/permissions.ts and the guards of shared/middleware/auth.ts. The
--   verification of an access token is a parameter.
-- - Redis: shared/redis/circuit-breaker.ts (Breaker) and shared/redis/degradation.ts
--   (Degradation), as state machines with runs of their events.
-- - Http: shared/http/idempotency.ts, and the memory store of shared/http/rate-limit-store.ts.
-- - Gamification: modules/gamification/service.ts.
-- - Questions: modules/questions. Csv has parseCsv and Rows csvToImportRows of csv.ts; Import has
--   importQuestions, Tags the helpers on tags, and Bank the other calls of service.ts that write.
--   Import/Loop, Import/Repeat, Bank/Removal, Csv/Printed and Csv/RoundTrip have the proofs.
--   SHA-256 is a parameter.
-- - Courses: modules/courses/service.ts and repository.ts; Progress has recordProgress and the
--   rollup of listMine, Wishlist the calls on the wishlist. Enrolment, Owners and Progress/Rollup
--   have the proofs.
-- - Certificates: modules/certificates/service.ts, on the tables of Courses.
-- - Challenges: modules/challenges/service.ts. The random draw is an argument.
-- - Chat: modules/chat/service.ts, and nextRoomSeq of mongo.ts; History has history, and Sequence
--   interleaves the calls of the document store that a message makes.
-- - Video: modules/video/service.ts on the tables of Courses, planRenditions and what
--   processTranscodeJob writes; Streaming has the proof about who may stream.
-- - Paging: shared/pagination.ts. A condition that is written as SQL is modelled by what it says
--   of a row; Keyset and Traversal have the proofs.
-- - Backoff: shared/backoff/retry.ts, with the random draws and the replies of the operation
--   given.
--
-- Amounts and scores are natural numbers without an upper bound, where the database has 32-bit
-- integers. Percentiles are computed exactly, where the source uses floating-point numbers. Every
-- loop is structural recursion on the list or the counter that the source runs through; a client
-- that follows the pages of a listing has fuel, and one page more than there are rows is enough.
-- Calls are atomic here, and interleave as whole calls; single conditional updates, such as the
-- one that guards a coupon's limit or a token's rotation, are written with the row's own values,
-- apart from those that were read before.
--
-- Not modelled: the routes and their schemas, the database client, migrations and seeds, the
-- cache, mail, object storage, the video encoder, the sockets of the chat, analytics,
-- notifications, results, learning paths, notes and questions to mentors, the listings of coupons
-- and bundles, the audit log, the polling timer of the Redis monitors, metrics and logging, which
-- are queries or I/O around code that this library does not cover yet.
pub mod Common
pub mod Redis
pub mod Payments
pub mod Simulations
pub mod Auth
pub mod Http
pub mod Gamification
pub mod Access
pub mod Questions
pub mod Paging
pub mod Backoff
pub mod Courses
pub mod Certificates
pub mod Challenges
pub mod Chat
pub mod Video
