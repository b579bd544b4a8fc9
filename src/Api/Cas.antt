-- ===== src/Api/Cas.antt =====
-- The handlers on CAs of backend/src/api.rs: `create_ca`, `persist_imported_ca` (the tail of
-- `import_ca` and `import_ca_url`), `download_ca_bundle` with `bundle_request_is_current`. The building
-- of a CA, the file it is saved to, the digest of the bundle, the PEM form and the parsing of a date
-- are parameters, and so is the time of the bundle's last change, which triggers of the database keep.
use vaul_tls.Base.{
  ℕ, ◌/◌, Bool, true, false, not, ◌&&◌, ◌||◌, Option, none, some, List, [], ◌∷◌, ◌++◌, any, leb,
  is_some, if◌then◌else◌,
}
use vaul_tls.Base.Result.{Result, ok}
use vaul_tls.Base.Action.{◌>>=◌, ◌>>◌, pure, lift, gets, modify, ensure}
use vaul_tls.Text.{Text, text, text_eq, trim, split}
use vaul_tls.Text.Decimal.{show}
use vaul_tls.Session.{guard_local_admin}
use vaul_tls.Db.Rows.{Bytes, Ca, CaType}
use vaul_tls.Db.Audit.{AuditAction}
use vaul_tls.Api.Errors.{ApiError, bad_request}
use vaul_tls.Api.State.{Api, Authenticated, Deed, admitted, audited}
use vaul_tls.Api.Import.{Pki, find_ca_by_cert_der, imported_ca}
use vaul_tls.Api.Users.{insert_ca, inserted_ca}

abbrev pub on_ca : AuditAction → ℕ → Deed
on_ca action id = record {
  action = action;
  target_type = some (text "ca");
  target_id = some (show id);
  target_label = none;
  detail = none;
}

-- `build` makes the CA that the request describes; `save_ca` writes its file.
unfoldable pub create_ca :
    (build : Result ApiError Ca)
    → (save_ca : Ca → Result ApiError (Unit {0})) → Authenticated
    → Api ℕ
create_ca build save_ca auth = do
  claims ← admitted (guard_local_admin (some auth.claims))
  built ← lift build
  ca ← gets (inserted_ca built)
  modify (insert_ca ca)
  saved ← lift (save_ca ca)
  modify (audited auth (on_ca AuditAction.create_ca ca.id))
  pure ca.id

abbrev pub parsed_key : Pki → Option Bytes → Result ApiError Bytes
parsed_key pki none = ok []
parsed_key pki (some bytes) = pki.parse_private_key bytes

abbrev pub renamed : Option Text → Ca → Ca
renamed none ca = ca
renamed (some cn) ca = record ca { name = record { cn = cn; ou = none } }

unfoldable pub persist_imported_ca :
    Pki
    → (save_ca : Ca → Result ApiError (Unit {0})) → Bytes
    → Option Bytes
    → Option Text
    → Authenticated
    → Api ℕ
persist_imported_ca pki save_ca cert_bytes key_bytes name_override auth = do
  claims ← admitted (guard_local_admin (some auth.claims))
  cert ← lift (pki.parse_cert cert_bytes)
  known ← gets (λ s. find_ca_by_cert_der cert.der s.db)
  ensure (not (is_some known)) (bad_request (text "identical CA already exists"))
  key ← lift (parsed_key pki key_bytes)
  ca ← gets (λ s. renamed name_override (imported_ca cert key s.db))
  modify (insert_ca ca)
  saved ← lift (save_ca ca)
  modify (audited auth (on_ca AuditAction.import_ca ca.id))
  pure ca.id

pub record CacheValidators : Type 0 where
  pub if_none_match : Option Text
  pub if_modified_since : Option Text

abbrev pub not_older : Option ℕ → ℕ → Bool
not_older none last_modified_secs = false
not_older (some ims) last_modified_secs = leb last_modified_secs ims

-- `If-None-Match` wins where it is present.
unfoldable pub bundle_request_is_current :
    (parse_date : Text → Option ℕ) → CacheValidators → Text → ℕ → Bool
bundle_request_is_current parse_date validators etag last_modified_secs =
    elim validators.if_none_match [
      | some inm ↦
          text_eq (trim inm) (text "*")
          || any (λ tag. text_eq (trim tag) etag) (split b',' (trim inm))
      | none ↦ elim validators.if_modified_since [
        | none ↦ false
        | some ims ↦ not_older (parse_date (trim ims)) last_modified_secs
      ]
    ]

pub record CaBundleResponse : Type 0 where
  pub body : Option Bytes
  pub etag : Text
  pub last_modified_secs : ℕ

-- Imported TLS CAs alone.
abbrev pub is_trusted : Ca → Bool
is_trusted ca = (elim ca.ca_type [ CaType.tls ↦ true | CaType.ssh ↦ false ]) && ca.is_imported

unfoldable pub bundle_of : (pem : Ca → Bytes) → List Ca → Bytes
bundle_of pem [] = []
bundle_of pem (ca ∷ rest) =
    let later = bundle_of pem rest in if is_trusted ca then pem ca ++ later else later

unfoldable pub download_ca_bundle :
    (pem : Ca → Bytes)
    → (etag_of : Bytes → Text) → (parse_date : Text → Option ℕ) → ℕ
    → CacheValidators
    → List Ca
    → CaBundleResponse
download_ca_bundle pem etag_of parse_date modified_ms validators cas =
    let bundle = bundle_of pem cas in
    record {
      body =
          if bundle_request_is_current parse_date validators (etag_of bundle) (modified_ms / 1000)
          then none
          else some bundle;
      etag = etag_of bundle;
      last_modified_secs = modified_ms / 1000;
    }
