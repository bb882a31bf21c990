-- ===== src/Policy/Tests.antt =====
-- A policy with conditions on a mailbox.
use open_archiver.Policy.Operands.{operator_texts, list_texts, texts_in, text_of}
use open_archiver.Policy.Conditions.{policy_emails, emails_in}
use open_archiver.Policy.Emails.{normalize_email_conditions-emails}
use open_archiver.Prelude.{map, ◌≡◌, refl, some, [], ◌∷◌, codes, text_eq}
use open_archiver.Address.{is_space, trim_start, trim_end, to_lower_case, normalize_email_address}
use open_archiver.Audit.Canonical.{str, arr, obj, nil, cons, end, field}
use open_archiver.Policy.{
  normalize, normalize_all, normalize_list, normalize_operators, normalize_email_operand,
  normalize_fields, CaslPolicy, normalize_policy, normalize_email_conditions,
}

abbrev read_bob : CaslPolicy
read_bob = record {
  conditions = some (
      field (codes "$or")
        (arr (
          cons
            (obj (
              field (codes "userEmail")
                (obj (field (codes "$in") (arr (cons (str (codes " Bob@x")) nil)) end)) end))
            nil))
        end);
  rest = end;
}

abbrev read_bob_normalized : CaslPolicy
read_bob_normalized = record {
  conditions = some (
      field (codes "$or")
        (arr (
          cons
            (obj (
              field (codes "userEmail")
                (obj (field (codes "$in") (arr (cons (str (codes "bob@x")) nil)) end)) end))
            nil))
        end);
  rest = end;
}

normalize_test :
    normalize_email_conditions to_lower_case (read_bob ∷ []) ≡ some (read_bob_normalized ∷ [])
unfolding normalize_email_conditions normalize_policy normalize_fields normalize_email_operand
    normalize_operators normalize_list normalize_all normalize normalize_email_address trim_start
    trim_end to_lower_case is_space text_eq
normalize_test = refl

normalize_email_conditions-emails_example :
    policy_emails (read_bob_normalized ∷ [])
    ≡ map (normalize_email_address to_lower_case) (policy_emails (read_bob ∷ []))
normalize_email_conditions-emails_example =
    normalize_email_conditions-emails to_lower_case (read_bob ∷ []) (read_bob_normalized ∷ [])
      normalize_test

-- The address that the theorem is about here.
policy_emails_test : policy_emails (read_bob ∷ []) ≡ codes " Bob@x" ∷ []
unfolding policy_emails emails_in operator_texts list_texts texts_in text_of text_eq
policy_emails_test = refl
