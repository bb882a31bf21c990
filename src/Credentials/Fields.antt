-- ===== src/Credentials/Fields.antt =====
-- mergeProviderCredentials: what an edit leaves under each field.
use open_archiver.Prelude.{
  subst, ◌≢◌, All, ◌≡◌, refl, sym, ◌∙◌, Bool, true, false, ◌&&◌, Option, none, some, List, [], ◌∷◌,
  Text, codes, text_eq, text_eq_iff, text_eq_refl, lookup, insert, lookup-insert, filter, any,
  is_some, is_empty, or_else, arith, if◌then◌else◌, Bool-cases, Option-cases, inl, inr,
}
use open_archiver.Credentials.{
  imap_fields, imap_required, microsoft_fields, google_fields, Setting, Config, Credentials,
  MergeResult, ok, incomplete_switch, missing_required, provider_fields, required_fields, is_blank,
  missing_fields, incoming_type, collect, pick_incoming, pick_merged, checked, merge_fields,
  merge_provider_credentials,
}

abbrev pub is_listed : Text → List Text → Bool
is_listed field fields = any (λ f. text_eq f field) fields

lookup-collect :
    (pick : Text → Option Setting) (fields : List Text) (acc : Config) (field : Text)
    → lookup field (collect pick fields acc)
      ≡ (if is_listed field fields && is_some (pick field) then pick field else lookup field acc)
unfolding collect
lookup-collect pick [] acc field = refl
lookup-collect pick (f ∷ fields) acc field = elim (Option-cases (pick f)) [
  | inl nothing ↦
      rw nothing
        (ground (arith, nothing, lookup-collect pick fields acc field, text_eq_iff f field))
  | inr (v, e) ↦ rw e (
      ground (
        arith,
        e,
        lookup-collect pick fields (insert f v acc) field,
        lookup-insert f field v acc,
        text_eq_iff f field,
      ))
]

-- The provider that an edit is for.
abbrev pub edited : Credentials → Config → Text
edited original incoming = incoming_type original.type (lookup (codes "type") incoming)

-- What an edit should leave under a field of the provider.
abbrev pub settled : Credentials → Config → Text → Option Setting
settled original incoming field =
    let value = lookup field incoming in
    if is_blank value
    then (if text_eq (edited original incoming) original.type
        then lookup field original.fields
        else none)
    else value

-- The field holds a value that is not blank.
abbrev pub IsFilled : Config → Text → Type 0
IsFilled config field = is_blank (lookup field config) ≡ false

none_missing :
    (config : Config) (fields : List Text)
    → is_empty (filter (λ f. is_blank (lookup f config)) fields) ≡ true
    → All (IsFilled config) fields
none_missing config [] e = tt
none_missing config (f ∷ fields) e = (ground arith, none_missing config fields (ground arith))

checked-accepts :
    (refuse : List Text → MergeResult) (provider : Text) (config : Config) (merged : Credentials)
    → ((missing : List Text) → refuse missing ≢ ok merged)
    → checked refuse provider config ≡ ok merged
    → (merged ≡ record { type = provider; fields = config })
      × (All (IsFilled config) (or_else (required_fields provider) []))
unfolding checked missing_fields
checked-accepts refuse provider config merged refuses e =
    elim (Bool-cases (is_empty (missing_fields config provider))) [
      | inl complete ↦ (
        ground (arith, e, complete),
        none_missing config (or_else (required_fields provider) []) complete,
      )
      | inr lacking ↦
          elim (refuses (missing_fields config provider) (ground (arith, e, lacking))) [ ]
    ]

collect-settles :
    (pick : Text → Option Setting) (fields : List Text) (field : Text)
    → lookup field (collect pick fields []) ≡ (if is_listed field fields then pick field else none)
unfolding lookup
collect-settles pick fields field = ground (arith, lookup-collect pick fields [] field)

-- The result of a merge: of this provider, complete, and with these fields.
abbrev IsMerged : Text → List Text → (Text → Option Setting) → Credentials → Type 0
IsMerged provider fields pick merged =
    (merged.type ≡ provider)
    × (All (IsFilled merged.fields) (or_else (required_fields merged.type) []))
    × ((field : Text)
        → lookup field merged.fields ≡ (if is_listed field fields then pick field else none))

checked-IsMerged :
    (refuse : List Text → MergeResult) (provider : Text) (fields : List Text)
    (pick : Text → Option Setting) (merged : Credentials)
    → ((missing : List Text) → refuse missing ≢ ok merged)
    → checked refuse provider (collect pick fields []) ≡ ok merged
    → IsMerged provider fields pick merged
checked-IsMerged refuse provider fields pick merged refuses e =
    let (same, complete) =
      checked-accepts refuse provider (collect pick fields []) merged refuses e in
    subst (IsMerged provider fields pick) (sym same) (refl, complete, collect-settles pick fields)

-- When an edit for a provider of the table is accepted, what is to be stored names that provider,
-- has every field that the provider requires, and holds under each field: nothing if the provider
-- has no such field, else the incoming value, or, where that is blank, the stored value if the
-- provider is unchanged and nothing if it is changed.
pub merge-settles :
    (original : Credentials) (incoming : Config) (fields : List Text) (merged : Credentials)
    → provider_fields (edited original incoming) ≡ some fields
    → merge_provider_credentials original incoming ≡ ok merged
    → (merged.type ≡ edited original incoming)
      × (All (IsFilled merged.fields) (or_else (required_fields merged.type) []))
      × ((field : Text)
          → lookup field merged.fields
            ≡ (if is_listed field fields then settled original incoming field else none))
unfolding merge_provider_credentials merge_fields pick_merged pick_incoming
merge-settles original incoming fields merged known e =
    let accepted : merge_fields original incoming (edited original incoming) fields ≡ ok merged =
      ground (arith, known, e) in
    let provider = edited original incoming in
    elim (Bool-cases (text_eq provider original.type)) [
      | inl kept ↦ rw kept (
          checked-IsMerged missing_required provider fields (pick_merged original.fields incoming)
            merged (λ missing. ground arith) (ground (arith, accepted, kept)))
      | inr switched ↦ rw switched (
          checked-IsMerged incomplete_switch provider fields (pick_incoming incoming) merged
            (λ missing. ground arith) (ground (arith, accepted, switched)))
    ]

abbrev AreListed : List Text → List Text → Type 0
AreListed required fields = All (λ field. is_listed field fields ≡ true) required

imap-AreListed : AreListed imap_required imap_fields
unfolding text_eq
imap-AreListed = (refl, (refl, (refl, tt)))

microsoft-AreListed : AreListed microsoft_fields microsoft_fields
unfolding text_eq
microsoft-AreListed = (refl, (refl, (refl, tt)))

google-AreListed : AreListed google_fields google_fields
unfolding text_eq
google-AreListed = (refl, (refl, tt))

required-AreListed :
    (provider : Text) (fields : List Text)
    → provider_fields provider ≡ some fields
    → AreListed (or_else (required_fields provider) []) fields
unfolding provider_fields required_fields
required-AreListed provider fields e = elim (Bool-cases (text_eq provider (codes "generic_imap"))) [
  | inl a ↦
      rw a (subst (AreListed imap_required) {x = imap_fields} (ground (arith, e, a)) imap-AreListed)
  | inr na ↦ elim (Bool-cases (text_eq provider (codes "microsoft_365"))) [
    | inl b ↦
        rw (na, b)
          (subst (AreListed microsoft_fields) {x = microsoft_fields} (ground (arith, e, na, b))
            microsoft-AreListed)
    | inr nb ↦ elim (Bool-cases (text_eq provider (codes "google_workspace"))) [
      | inl c ↦
          rw (na, nb, c)
            (subst (AreListed google_fields) {x = google_fields} (ground (arith, e, na, nb, c))
              google-AreListed)
      | inr nc ↦ rw (na, nb, nc) tt
    ]
  ]
]

none_missing-filter :
    (config : Config) (fields : List Text)
    → All (IsFilled config) fields
    → filter (λ f. is_blank (lookup f config)) fields ≡ []
none_missing-filter config [] h = refl
none_missing-filter config (f ∷ fields) (h, hs) =
    ground (arith, h, none_missing-filter config fields hs)

IsFilled-kept :
    (original config : Config) (fields required : List Text)
    → ((field : Text) → is_listed field fields ≡ true → lookup field config ≡ lookup field original)
    → AreListed required fields
    → All (IsFilled original) required
    → All (IsFilled config) required
IsFilled-kept original config fields [] same listed h = tt
IsFilled-kept original config fields (r ∷ required) same (l, listed) (h, hs) =
    (rw (same r l) h, IsFilled-kept original config fields required same listed hs)

blank-type :
    (stored : Text) (o : Option Setting) → is_blank o ≡ true → incoming_type stored o ≡ stored
unfolding is_blank incoming_type
blank-type stored o h = ground arith

-- An edit that leaves every field blank is accepted where the stored credentials have all that
-- their provider requires, and it keeps the provider and each of the provider's fields.
pub blank_edit-keeps :
    (original : Credentials) (incoming : Config) (fields : List Text)
    → provider_fields original.type ≡ some fields
    → All (IsFilled original.fields) (or_else (required_fields original.type) [])
    → ((field : Text) → is_blank (lookup field incoming) ≡ true)
    → (merged : Credentials) × (merge_provider_credentials original incoming ≡ ok merged)
      × (merged.type ≡ original.type)
      × ((field : Text)
          → is_listed field fields ≡ true
          → lookup field merged.fields ≡ lookup field original.fields)
unfolding merge_provider_credentials merge_fields checked missing_fields pick_merged
blank_edit-keeps original incoming fields known complete blank =
    let config = collect (pick_merged original.fields incoming) fields [] in
    let kept : (field : Text)
        → is_listed field fields ≡ true
        → lookup field config ≡ lookup field original.fields =
      λ field l.
        collect-settles (pick_merged original.fields incoming) fields field
        ∙ ground (arith, l, blank field) in
    let filled = none_missing-filter config (or_else (required_fields original.type) []) (
      IsFilled-kept original.fields config fields (or_else (required_fields original.type) []) kept
        (required-AreListed original.type fields known) complete) in
    let provider =
      blank-type original.type (lookup (codes "type") incoming) (blank (codes "type")) in
    (
      record { type = original.type; fields = config },
      ground (arith, provider, known, filled, text_eq_refl original.type),
      refl,
      kept,
    )
