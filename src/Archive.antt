-- ===== src/Archive.antt =====
-- packages/backend/src/services/IngestionService.ts, the archiving of one e-mail: processEmail with
-- what it calls, on the rows of archived_emails, attachments and email_attachments and the objects
-- of the storage.
pub mod Model
pub mod MessageId
pub mod Store
pub mod Process
pub mod Objects
pub mod Cases
pub mod Stored
pub mod Steps
pub mod Once
pub mod Unique
pub mod Limits
mod Tests
