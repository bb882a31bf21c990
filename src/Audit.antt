-- ===== src/Audit.antt =====
-- packages/backend/src/services/AuditService.ts: the hash chain of the audit log. The table
-- audit_logs is the list of its rows in the order of their serial ids; `sha256` is Node's.
pub mod Canonical
pub mod Chain
pub mod Faults
pub mod Order
pub mod Reorder
mod Tests
use open_archiver.Prelude.{
  text_eq, ℕ, zero, suc, ◌+◌, Bool, true, false, Option, none, some, List, [], ◌∷◌, ◌++◌, Text,
  codes, take, drop, is_empty, length, if◌then◌else◌,
}
use open_archiver.Audit.Canonical.{
  Value, null, num, str, obj, end, field, sanitize_field, canonical_stringify,
}

-- What a caller records. An absent optional field and one that is null are both `none`.
pub record Entry : Type 0 where
  pub actor_identifier : Text
  pub actor_ip : Option Text
  pub action_type : Text
  pub target_type : Option Text
  pub target_id : Option Text
  pub details : Value

-- The entry with what createAuditLog adds before hashing; the time in milliseconds.
pub record NewEntry : Type 0 where
  pub entry : Entry
  pub previous_hash : Option Text
  pub timestamp : ℕ

pub record Row : Type 0 where
  pub id : ℕ
  pub content : NewEntry
  pub current_hash : Text

pub record Table : Type 0 where
  pub rows : List Row
  pub next_id : ℕ

abbrev pub empty_table : Table
empty_table = record { rows = []; next_id = 1 }

-- `x ?? null`
abbrev pub nullable : Option Text → Value
nullable none = null
nullable (some t) = str t

abbrev pub or_null : Value → Value
or_null Value.undef = null
or_null v = v

-- sanitizeObject on the entry: only `details` holds anything that it can change.
unfoldable pub sanitize_entry : Entry → Entry
sanitize_entry e = record e { details = sanitize_field e.details }

-- The object that calculateHash builds.
unfoldable pub object_to_hash : NewEntry → Value
object_to_hash e = obj (
    field (codes "actorIdentifier") (str e.entry.actor_identifier) (
      field (codes "actorIp") (nullable e.entry.actor_ip) (
        field (codes "actionType") (str e.entry.action_type) (
          field (codes "targetType") (nullable e.entry.target_type) (
            field (codes "targetId") (nullable e.entry.target_id) (
              field (codes "details") (or_null e.entry.details) (
                field (codes "previousHash") (nullable e.previous_hash)
                  (field (codes "timestamp") (num e.timestamp) end))))))))

abbrev pub last_row : List Row → Option Row
last_row [] = none
last_row (r ∷ []) = some r
last_row (r ∷ s ∷ rows) = last_row (s ∷ rows)

-- getLatestHash
unfoldable pub latest_hash : List Row → Option Text
latest_hash rows = elim (last_row rows) [ none ↦ none | some r ↦ some r.current_hash ]

-- `a !== b` between two values that may be null, negated
abbrev pub same_hash : Option Text → Option Text → Bool
same_hash none none = true
same_hash (some a) (some b) = text_eq a b
same_hash _ _ = false

-- What verifyAuditLog reports: a broken chain or a changed entry, with the row's id.
pub data Fault : Type 0 where
  chain_broken tampered : ℕ → Fault

pub data Verdict : Type 0 where
  verified : Verdict
  corrupt : Fault → Verdict

-- The loop over one page: the first fault, or the hash that the next page starts from.
pub data Scan : Type 0 where
  fault : Fault → Scan
  passed : Option Text → Scan

abbrev pub next_page : Scan → (Option Text → Option Verdict) → Option Verdict
next_page (fault f) again = some (corrupt f)
next_page (passed p) again = again p

module _ (sha256 : Text → Text) where
  unfoldable pub calculate_hash : NewEntry → Text
  calculate_hash e = sha256 (canonical_stringify (object_to_hash e))

  -- The row that createAuditLog inserts.
  unfoldable pub new_row : Entry → ℕ → Table → Row
  new_row entry now t =
      let content : NewEntry = record {
        entry = sanitize_entry entry;
        previous_hash = latest_hash t.rows;
        timestamp = now;
      } in
      record { id = t.next_id; content = content; current_hash = calculate_hash content }

  unfoldable pub create_audit_log : Entry → ℕ → Table → Table
  unfolding new_row
  create_audit_log entry now t = record {
    rows = t.rows ++ new_row entry now t ∷ [];
    next_id = t.next_id + 1;
  }

  unfoldable pub scan : Option Text → List Row → Scan
  scan previous [] = passed previous
  scan previous (log ∷ logs) =
      if same_hash log.content.previous_hash previous
      then (if text_eq log.current_hash (calculate_hash log.content)
          then scan (some log.current_hash) logs
          else fault (tampered log.id))
      else fault (chain_broken log.id)

  -- One round of the loop over pages; `again` goes on with the next page.
  abbrev pub read_page : List Row → Option Text → (Option Text → Option Verdict) → Option Verdict
  read_page [] previous again = some verified
  read_page (log ∷ logs) previous again = next_page (scan previous (log ∷ logs)) again

  -- The loop over pages of `size` rows; `none` means that the fuel ran out.
  unfoldable pub verify_pages : ℕ → ℕ → List Row → ℕ → Option Text → Option Verdict
  verify_pages zero size rows offset previous = none
  verify_pages (suc f) size rows offset previous =
      read_page (take size (drop offset rows)) previous
        (λ p. verify_pages f size rows (offset + size) p)

  -- verifyAuditLog; a page for each row, and one more, are enough rounds.
  unfoldable pub verify_audit_log : Table → Option Verdict
  verify_audit_log t = verify_pages (suc (length t.rows)) 1000 t.rows 0 none
