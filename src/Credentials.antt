-- ===== src/Credentials.antt =====
-- packages/backend/src/services/credentialMerge.ts. A configuration is what its object holds under
-- each key; a key that holds undefined is one that is not there. A type that names a property of
-- Object.prototype, such as toString, is left out.
use open_archiver.Prelude.{
  ℕ, Bool, true, false, not, ◌||◌, Option, none, some, List, [], ◌∷◌, Text, codes, text_eq, lookup,
  insert, remove, filter, any, is_empty, or_else, if◌then◌else◌,
}
pub mod Fields
pub mod Tests

pub data Setting : Type 0 where
  text : Text → Setting
  flag : Bool → Setting
  number : ℕ → Setting
  null : Setting

abbrev pub Config : Type 0
Config = List (Text × Setting)

-- Stored credentials: the provider they name and their other fields.
pub record Credentials : Type 0 where
  pub type : Text
  pub fields : Config

pub data MergeResult : Type 0 where
  ok : Credentials → MergeResult
  incomplete_switch missing_required : List Text → MergeResult

abbrev pub imap_fields : List Text
imap_fields =
    codes "host"
    ∷ codes "port"
    ∷ codes "secure"
    ∷ codes "allowInsecureCert"
    ∷ codes "username"
    ∷ codes "password"
    ∷ []

abbrev pub imap_required : List Text
imap_required = codes "host" ∷ codes "username" ∷ codes "password" ∷ []

abbrev pub microsoft_fields : List Text
microsoft_fields = codes "clientId" ∷ codes "clientSecret" ∷ codes "tenantId" ∷ []

abbrev pub google_fields : List Text
google_fields = codes "serviceAccountKeyJson" ∷ codes "impersonatedAdminEmail" ∷ []

abbrev pub upload_fields : List Text
upload_fields = codes "uploadedFileName" ∷ codes "uploadedFilePath" ∷ codes "localFilePath" ∷ []

-- A table that is keyed by the provider.
abbrev at : {V : Type 0} → Text → List (Text × V) → Option V
at t [] = none
at t ((key, v) ∷ table) = if text_eq t key then some v else at t table

-- PROVIDER_FIELDS
unfoldable pub provider_fields : Text → Option (List Text)
provider_fields t = at t (
    (codes "generic_imap", imap_fields)
    ∷ (codes "microsoft_365", microsoft_fields)
    ∷ (codes "google_workspace", google_fields)
    ∷ (codes "pst_import", upload_fields)
    ∷ (codes "eml_import", upload_fields)
    ∷ (codes "mbox_import", upload_fields)
    ∷ [])

-- REQUIRED_FIELDS
unfoldable pub required_fields : Text → Option (List Text)
required_fields t = at t (
    (codes "generic_imap", imap_required)
    ∷ (codes "microsoft_365", microsoft_fields)
    ∷ (codes "google_workspace", google_fields)
    ∷ [])

unfoldable pub is_blank : Option Setting → Bool
is_blank none = true
is_blank (some (text [])) = true
is_blank (some _) = false

unfoldable pub missing_fields : Config → Text → List Text
unfolding is_blank
missing_fields config provider =
    filter (λ field. is_blank (lookup field config)) (or_else (required_fields provider) [])

-- `typeof incoming.type === 'string' && incoming.type !== ''`, else the stored type.
unfoldable pub incoming_type : Text → Option Setting → Text
incoming_type stored (some (text (c ∷ t))) = c ∷ t
incoming_type stored _ = stored

-- The loops over the provider's fields, which set what `pick` gives for each.
unfoldable pub collect : (Text → Option Setting) → List Text → Config → Config
collect pick [] acc = acc
collect pick (field ∷ fields) acc =
    collect pick fields (elim (pick field) [ none ↦ acc | some v ↦ insert field v acc ])

-- What a provider switch takes for a field, and what an edit without one does.
unfoldable pub pick_incoming : Config → Text → Option Setting
pick_incoming incoming field =
    if is_blank (lookup field incoming) then none else lookup field incoming

unfoldable pub pick_merged : Config → Config → Text → Option Setting
pick_merged original incoming field =
    if is_blank (lookup field incoming) then lookup field original else lookup field incoming

-- The fields as they are to be stored, unless required ones are missing.
unfoldable pub checked : (List Text → MergeResult) → Text → Config → MergeResult
checked refuse provider config =
    let missing = missing_fields config provider in
    if is_empty missing then ok (record { type = provider; fields = config }) else refuse missing

unfoldable pub merge_fields : Credentials → Config → Text → List Text → MergeResult
merge_fields original incoming provider fields =
    if not (text_eq provider original.type)
    then checked incomplete_switch provider (collect (pick_incoming incoming) fields [])
    else checked missing_required provider
        (collect (pick_merged original.fields incoming) fields [])

unfoldable pub merge_provider_credentials : Credentials → Config → MergeResult
merge_provider_credentials original incoming =
    let provider = incoming_type original.type (lookup (codes "type") incoming) in
    elim (provider_fields provider) [
      | none ↦ ok (record { type = provider; fields = remove (codes "type") incoming })
      | some fields ↦ merge_fields original incoming provider fields
    ]
