-- ===== src/Credentials/Tests.antt =====
-- Edits of stored credentials, and the theorems at them.
use open_archiver.Prelude.{
  true, ◌≡◌, refl, none, [], ◌∷◌, All, Text, codes, text_eq, lookup, insert, or_else, if◌then◌else◌,
}
use open_archiver.Credentials.{
  text, Config, Credentials, ok, incomplete_switch, google_fields, provider_fields, required_fields,
  is_blank, incoming_type, missing_fields, collect, pick_incoming, pick_merged, checked,
  merge_fields, merge_provider_credentials,
}
use open_archiver.Credentials.Fields.{
  IsFilled, is_listed, edited, settled, merge-settles, blank_edit-keeps,
}

abbrev key : Text
key = codes "serviceAccountKeyJson"

abbrev admin : Text
admin = codes "impersonatedAdminEmail"

abbrev google : Credentials
google = record {
  type = codes "google_workspace";
  fields = (key, text (codes "k")) ∷ (admin, text (codes "a@x")) ∷ [];
}

-- A new administrator, a key left blank, and a field of another provider.
abbrev edit : Config
edit = (admin, text (codes "b@x")) ∷ (key, text []) ∷ (codes "port", text (codes "993")) ∷ []

abbrev edited_google : Credentials
edited_google = record {
  type = codes "google_workspace";
  fields = (key, text (codes "k")) ∷ (admin, text (codes "b@x")) ∷ [];
}

merge_test : merge_provider_credentials google edit ≡ ok edited_google
unfolding merge_provider_credentials merge_fields checked missing_fields collect pick_merged
    is_blank incoming_type provider_fields required_fields lookup insert text_eq
merge_test = refl

switch_test :
    merge_provider_credentials google ((codes "type", text (codes "generic_imap")) ∷ [])
    ≡ incomplete_switch (codes "host" ∷ codes "username" ∷ codes "password" ∷ [])
unfolding merge_provider_credentials merge_fields checked missing_fields collect pick_incoming
    is_blank incoming_type provider_fields required_fields lookup insert text_eq
switch_test = refl

merge-settles_example :
    (edited_google.type ≡ edited google edit)
    × (All (IsFilled edited_google.fields) (or_else (required_fields edited_google.type) []))
    × ((field : Text)
        → lookup field edited_google.fields
          ≡ (if is_listed field google_fields then settled google edit field else none))
unfolding provider_fields incoming_type lookup text_eq
merge-settles_example = merge-settles google edit google_fields edited_google refl merge_test

blank_edit-keeps_example :
    (merged : Credentials) × (merge_provider_credentials google [] ≡ ok merged)
    × (merged.type ≡ google.type)
    × ((field : Text)
        → is_listed field google_fields ≡ true
        → lookup field merged.fields ≡ lookup field google.fields)
unfolding provider_fields required_fields is_blank lookup text_eq
blank_edit-keeps_example =
    blank_edit-keeps google [] google_fields refl (refl, (refl, tt)) (λ field. refl)
