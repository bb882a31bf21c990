-- ===== src/Lib.antt =====
-- OpenArchiver's backend, packages/backend/src: the parts of it that decide what is kept and who is
-- let in. Text is a list of UTF-16 code units (of code points in Names, Archive and Crypto, and of bytes where
-- it is the content of a file), numbers are naturals, a database table is a list of rows in the order
-- of their ids, and a function of a service takes the state it works on and returns it. What a clock, a random source, a database default or a package gives is an argument.
--
-- Audit: services/AuditService.ts. Audit.antt has createAuditLog, getLatestHash, calculateHash and
-- verifyAuditLog (which reads pages of 1000 rows; its fuel is the number of rows and one more, as
-- every page but the last takes a row at least), Audit/Canonical.antt sanitizeObject and
-- canonicalStringify. sha256 is the parameter of the section. Chain and Faults have the theorems on
-- verification, Order and Reorder those on the order of keys.
--
-- Crypto: services/CryptoService.ts, encrypt and decrypt with the layout of the stored text in hex.
-- A value is encoded and decoded as UTF-8 by the functions of Names.
-- scrypt and AES-GCM are the record Primitives, and IsSound is what their documentation promises.
--
-- Mfa: services/MfaRedisStore.ts (Store.antt, with the fallback from Redis to process memory) and
-- services/MfaService.ts (Service.antt). It uses Crypto for the stored secret and Audit for its log.
-- Calls.antt has the sequences of calls by any callers. Replay, Users, Consistent, Codes, Enrol and
-- Audited have the theorems. otplib's verifySync and bcrypt's compare and hash are fields of Env.
--
-- Address: helpers/emailAddress.ts, the normal form of a mailbox and the lookup by it. Policy, Archive
-- and Sync use the normal form. toLowerCase is a parameter of it.
--
-- Names: helpers/truncateToBytes.ts and the names that services/IngestionService.ts builds with it
-- (buildEmailFileName, boundMessageKey, clampPathSegment, buildAttachmentFileName), on lists of code
-- points, and the temporary name of services/storage/LocalFileSystemProvider.ts. Utf8.antt and Truncate.antt have the encoding, Sizes, Paths and Limits the limits.
--
-- Archive: services/IngestionService.ts, processEmail and doesEmailExist with what they call
-- (findGroupSourceIds, resolveEffectiveSource, storeEmailOrAdopt, getOrCreateAttachmentId,
-- messageIdHeaderOf, dedupKeyFor, messageIdOfRawEml). Model.antt has the rows and the stored objects,
-- MessageId.antt the reading of the header, Store.antt the storing and Process.antt the gates and
-- processEmail, which returns the archive and its outcome; a failure keeps what was written before
-- it. The storage is the one of services/storage/S3StorageProvider.ts, on a backend that has
-- conditional writes (on another, put overwrites what is there), where a path is a key that is compared
-- as it stands; LocalFileSystemProvider.ts, which resolves `..` in
-- a path, is not modelled but for its temporary name.
-- The record Env has what comes from outside: sha256, where the storage fails, toLowerCase, PostgreSQL's
-- lower(btrim()) of a mailbox, random names, and stripAttachmentsFromEml. The unfolding of a header
-- runs on the length of its value, as each round takes a character. Cases and Steps have the ways
-- through a call; Objects, Stored, Once and Unique the theorems, and
-- Limits those on the length of keys and names.
--
-- Mailbox: jobs/processors/process-mailbox.processor.ts, its loop over the e-mails of a mailbox. What
-- runs between two awaits is one event, and a run is a list of events in any order that step admits.
-- The key of an e-mail is what dedupKeyFor in Archive gives, and the outcome of a task what
-- processEmail returns. Chain, Moves, Invariant, Sound and Reachable have the invariant of the
-- tasks, Accounts, Landed and Handover the way of the archived e-mails to the queue, Tasks the theorem on tasks
-- of one key, and Landing and Progress that the loop can always come to its end.
--
-- Sync: the rows of ingestion_sources and sync_sessions and the actions on them (Model.antt),
-- services/IngestionService.ts as far as the jobs use it (Source.antt: findById, claimForSync,
-- claimForImport, update, triggerInitialImport), services/SyncSessionService.ts (Session.antt, and
-- StateMerge.antt for buildSyncStateMerge), and the processors of jobs/processors that open and end a
-- cycle (Cycle.antt: initial-import, continuous-sync, sync-cycle-finished, schedule-continuous-sync).
-- An action returns the database and a value or a throw; a throw keeps the writes before it, as the
-- code has no transaction there. Requests to the queue are recorded, not delivered. Claims, Counting,
-- Finish, Sweep and Merging have the theorems. Each database statement is atomic and one action runs
-- at a time, so an interleaving is a sequence of actions.
--
-- Credentials: services/credentialMerge.ts, what an edit of a source leaves of its credentials.
--
-- Search: helpers/meiliFilter.ts, the filter expressions of the advanced search. Reading.antt has a
-- reader of such an expression, and Safety.antt what it reads in a filter that is built.
--
-- Retry: services/ingestion-connectors/helpers/retry.ts, withRetry (its fuel is the number of
-- attempts and one more, since the round after the last attempt is not entered) and
-- MessageFailureTally.
--
-- Policy: iam-policy/normalize-conditions.ts, on the JSON values of Audit/Canonical.antt, with what
-- Object.entries lists for a text or an array written out. Operands.antt and Conditions.antt read
-- off the addresses of a policy by definitions of their own, and Emails.antt has the theorem.
--
-- Not modelled: the HTTP layer, the screens, the connectors' use of their client libraries, the
-- search index, the removal of mail, the caches and the temporary files of a job, OCR, and the reads
-- that only fill a screen.
pub mod Prelude
pub mod Audit
pub mod Crypto
pub mod Mfa
pub mod Address
pub mod Credentials
pub mod Search
pub mod Retry
pub mod Policy
pub mod Names
pub mod Archive
pub mod Mailbox
pub mod Sync
