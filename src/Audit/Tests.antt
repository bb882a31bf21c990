-- ===== src/Audit/Tests.antt =====
-- Runs of the audit log on concrete rows, and the theorems at those rows.
use open_archiver.Prelude.{
  text_eq, ◌↔◌, ◌≡◌, refl, ◌≢◌, none, some, [], ◌∷◌, map, Text, codes, length, arith, decimal,
}
use open_archiver.Audit.Canonical.{
  Value, null, num, str, arr, obj, nil, cons, end, field, undef, canonical_stringify,
  sanitize_field, sanitize_object, text_le, escape,
}
use open_archiver.Audit.{
  latest_hash, scan, sanitize_entry, object_to_hash, verify_pages, Entry, NewEntry, Row, Table,
  empty_table, Verdict, verified, corrupt, tampered, calculate_hash, create_audit_log,
  verify_audit_log,
}
use open_archiver.Audit.Chain.{
  record_all, record_all-verified, truncated-verified, verify_iff, IsChained,
}
use open_archiver.Audit.Faults.{FirstFault, verify-FirstFault}
use open_archiver.Audit.Reorder.{same_obj, swapped, calculate_hash-SameValue}

-- A stand-in for sha256 that runs in a test: the length, in decimal.
abbrev toy_hash : Text → Text
toy_hash t = decimal (length t)

abbrev details : Value
details = obj (
    field (codes "b") (num 12)
      (field (codes "a") (arr (cons undef (cons (str (codes "x\"")) nil))) end))

abbrev login : Entry
login = record {
  actor_identifier = codes "alice";
  actor_ip = none;
  action_type = codes "LOGIN";
  target_type = none;
  target_id = none;
  details = details;
}

canonical_test : canonical_stringify details ≡ codes "{\"a\":[null,\"x\\\"\"],\"b\":12}"
unfolding canonical_stringify decimal text_le escape
canonical_test = refl

abbrev logs : Table
logs = record_all toy_hash ((login, 7) ∷ (login, 9) ∷ []) empty_table

verify_test : verify_audit_log toy_hash logs ≡ some verified
verify_test = record_all-verified toy_hash ((login, 7) ∷ (login, 9) ∷ [])

abbrev backdate : Row → Row
backdate r = record r { content = record (r.content) { timestamp = 1234 } }

-- The same log with the time of each entry changed in place.
abbrev forged : Table
forged = record { rows = map backdate logs.rows; next_id = 3 }

forged_test : verify_audit_log toy_hash forged ≡ some (corrupt (tampered 1))
unfolding verify_audit_log calculate_hash create_audit_log latest_hash scan verify_pages
    sanitize_entry sanitize_field sanitize_object object_to_hash canonical_stringify decimal text_le
    escape text_eq
forged_test = refl

verify-FirstFault_example : FirstFault toy_hash none forged.rows (tampered 1)
verify-FirstFault_example = verify-FirstFault toy_hash forged (tampered 1) forged_test

verify_iff_example :
    ((v : Verdict) × (verify_audit_log toy_hash forged ≡ some v))
    × ((verify_audit_log toy_hash forged ≡ some verified) ↔ IsChained toy_hash none forged.rows)
verify_iff_example = verify_iff toy_hash forged

record_all-verified_example :
    verify_audit_log toy_hash (record_all toy_hash ((login, 7) ∷ (login, 9) ∷ []) empty_table)
    ≡ some verified
record_all-verified_example = record_all-verified toy_hash ((login, 7) ∷ (login, 9) ∷ [])

truncated-verified_example :
    verify_audit_log toy_hash (record { rows = []; next_id = 2 }) ≡ some verified
unfolding verify_audit_log calculate_hash create_audit_log latest_hash scan verify_pages
    sanitize_entry sanitize_field sanitize_object object_to_hash canonical_stringify decimal text_le
    escape text_eq
truncated-verified_example =
    truncated-verified toy_hash [] (record_all toy_hash ((login, 7) ∷ []) empty_table).rows 2 refl

a_ne_b : codes "b" ≢ codes "a"
a_ne_b = ground arith

abbrev recorded : NewEntry
recorded = record {
  entry = record login { details = obj (field (codes "b") null (field (codes "a") (num 1) end)) };
  previous_hash = none;
  timestamp = 7;
}

calculate_hash-SameValue_example :
    calculate_hash toy_hash recorded
    ≡ calculate_hash toy_hash (record recorded {
      entry = record login {
        details = obj (field (codes "a") (num 1) (field (codes "b") null end));
      };
    })
calculate_hash-SameValue_example =
    calculate_hash-SameValue toy_hash recorded
      (obj (field (codes "a") (num 1) (field (codes "b") null end)))
      (same_obj (swapped (codes "b") (codes "a") null (num 1) a_ne_b))
