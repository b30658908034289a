-- ===== src/Tls.antt =====
-- internal/conn/tls.go: the TLS parameters that are folded into a connection string. The package
-- net/url is an argument: `U` is a parsed address, `V` the values of its query.
pub mod Given
pub mod Merged
use sql_ai_tools.Prelude.{
  Bool, true, false, ◌&&◌, ◌||◌, not, List, [], ◌∷◌, Option, none, some, Bytes, codes,
  if◌then◌else◌,
}
use sql_ai_tools.Text.{has_prefix, trim_space}

-- What the code calls of net/url; `rebuild` is `u.RawQuery = q.Encode()` and `u.String()`.
pub record Urls (U V : Type 0) : Type 0 where
  pub parse : Bytes → Option U
  pub query : U → V
  pub get : V → Bytes → Bytes
  pub set : V → Bytes → Bytes → V
  pub rebuild : U → V → Bytes

pub record TlsParams : Type 0 where
  pub ssl_mode : Bytes
  pub ssl_root_cert : Bytes
  pub ssl_cert : Bytes
  pub ssl_key : Bytes

pub data TlsError : Type 0 where
  half_pair no_dsn not_uri bad_uri : TlsError
  already_present : Bytes → Bytes → TlsError

pub data Result (A : Type 0) : Type 0 where
  merged : A → Result A
  rejected : TlsError → Result A

abbrev pub is_empty : Bytes → Bool
is_empty [] = true
is_empty (c ∷ s) = false

-- `IsZero`.
unfoldable pub is_zero : TlsParams → Bool
is_zero p =
    is_empty p.ssl_mode && is_empty p.ssl_root_cert && is_empty p.ssl_cert && is_empty p.ssl_key

pub record Field : Type 0 where
  pub name : Bytes
  pub val : Bytes

-- The slice that the loop goes through.
abbrev pub fields_of : TlsParams → List Field
fields_of p =
    record { name = codes "sslmode"; val = p.ssl_mode }
    ∷ record { name = codes "sslrootcert"; val = p.ssl_root_cert }
    ∷ record { name = codes "sslcert"; val = p.ssl_cert }
    ∷ record { name = codes "sslkey"; val = p.ssl_key }
    ∷ []

-- `(p.SSLCert == "") != (p.SSLKey == "")`.
unfoldable pub is_half_pair : TlsParams → Bool
is_half_pair p = if is_empty p.ssl_cert then not (is_empty p.ssl_key) else is_empty p.ssl_key

unfoldable pub is_uri : Bytes → Bool
is_uri s = has_prefix s (codes "postgres://") || has_prefix s (codes "postgresql://")

module _ {U V : Type 0} where
  unfoldable pub set_fields : Urls U V → List Field → V → Result V
  set_fields url [] q = merged q
  set_fields url (f ∷ fields) q =
      let rest = set_fields url fields q in
      let set = set_fields url fields (url.set q f.name f.val) in
      if is_empty f.val
      then rest
      else if is_empty (url.get q f.name)
      then set
      else rejected (already_present f.name (url.get q f.name))

  unfoldable pub rebuilt : Urls U V → U → Result V → Result Bytes
  rebuilt url u (rejected e) = rejected e
  rebuilt url u (merged q) = merged (url.rebuild u q)

  unfoldable pub merge_parsed : Urls U V → TlsParams → Option U → Result Bytes
  unfolding rebuilt set_fields
  merge_parsed url p none = rejected bad_uri
  merge_parsed url p (some u) = rebuilt url u (set_fields url (fields_of p) (url.query u))

  unfoldable pub merge_trimmed : Urls U V → TlsParams → Bytes → Result Bytes
  unfolding merge_parsed is_uri
  merge_trimmed url p trimmed =
      if is_empty trimmed
      then rejected no_dsn
      else if is_uri trimmed
      then merge_parsed url p (url.parse trimmed)
      else rejected not_uri

  -- `MergeTLSParams`.
  unfoldable pub merge_tls_params : Urls U V → Bytes → TlsParams → Result Bytes
  unfolding is_zero is_half_pair merge_trimmed
  merge_tls_params url dsn p =
      if is_zero p
      then merged dsn
      else if is_half_pair p
      then rejected half_pair
      else merge_trimmed url p (trim_space dsn)
