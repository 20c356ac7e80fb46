-- ===== src/Certificates.antt =====
-- simulator_security_extensions.go: `OnCertificateSigned`, `OnInstallCertificate`,
-- `OnGetInstalledCertificateIds`, `OnDeleteCertificate` and their helpers.
pub mod Laws
use Prim.Native.String.{◌++◌}
use ocpp_cli.Prelude.{
  ℤ, pos, ℕ, String, Bool, true, false, Option, none, some, List, [], ◌∷◌, length, sort, str_eq,
  is_some, if◌then◌else◌,
}
use ocpp_cli.Prelude.Int.{string_eq}
use ocpp_cli.Prelude.Maps.{Map, get, put, remove}
use ocpp_cli.Text.{byte_length}
use ocpp_cli.Configuration.{string_le}
use ocpp_cli.Ocpp.{Word, Action, Piece, lit, num, inbound}
use ocpp_cli.Station.{Simulator, CertificateHash, InstalledCertificate, Env}
use ocpp_cli.Station.Emit.{emit}

-- A block of a PEM text: its type and its bytes.
pub record Block : Type 0 where
  pub kind : String
  pub bytes : List ℕ

-- What the code reads of an `x509.Certificate`; the number is in base 16.
pub record Certificate : Type 0 where
  pub raw_issuer : List ℕ
  pub raw_public_key : List ℕ
  pub serial_number : String

-- The blocks that `pem.Decode` yields in turn, `x509.ParseCertificate`, sha256 in hex, and
-- `strings.ToLower` and `strings.ToUpper`.
pub record Crypto : Type 0 where
  pub blocks : String → List Block
  pub parse : List ℕ → Option Certificate
  pub sha_256 : List ℕ → String
  pub lower : String → String
  pub upper : String → String

unfoldable pub first_certificate : Crypto → List Block → Option Certificate
first_certificate c [] = none
first_certificate c (block ∷ rest) =
    let later = first_certificate c rest in
    if str_eq block.kind "CERTIFICATE" then c.parse block.bytes else later

unfoldable pub parse_first_certificate : Crypto → String → Option Certificate
unfolding first_certificate
parse_first_certificate c value = first_certificate c (c.blocks value)

unfoldable pub certificate_hash : Crypto → Certificate → CertificateHash
certificate_hash c certificate = record {
  hash_algorithm = "SHA256";
  issuer_name_hash = c.sha_256 certificate.raw_issuer;
  issuer_key_hash = c.sha_256 certificate.raw_public_key;
  serial_number = c.upper certificate.serial_number;
}

unfoldable pub certificate_hash_key : Crypto → CertificateHash → String
certificate_hash_key c hash =
    hash.hash_algorithm
    ++ ":"
    ++ c.lower hash.issuer_name_hash
    ++ ":"
    ++ c.lower hash.issuer_key_hash
    ++ ":"
    ++ c.lower hash.serial_number

unfoldable pub on_certificate_signed : Crypto → Env → String → Simulator → Simulator × Word
unfolding parse_first_certificate emit
on_certificate_signed c env chain s =
    let detail = lit "chain_bytes=" ∷ num (pos (byte_length chain)) ∷ [] in
    elim (parse_first_certificate c chain) [
      | none ↦
          (emit env inbound Action.certificate_signed Word.rejected none detail s, Word.rejected)
      | some certificate ↦ (
        emit env inbound Action.certificate_signed Word.accepted none detail
            (record s { station_certificate_chain = chain }),
        Word.accepted,
      )
    ]

-- `env.error_text` is the text of the error.
unfoldable pub on_install_certificate :
    Crypto → Env → String → String → Simulator → Simulator × Word
unfolding parse_first_certificate certificate_hash certificate_hash_key emit
on_install_certificate c env kind pem s = elim (parse_first_certificate c pem) [
  | none ↦ (
    emit env inbound Action.install_certificate Word.failed none (lit env.error_text ∷ []) s,
    Word.failed,
  )
  | some certificate ↦
      let hash = certificate_hash c certificate in
      (
        emit env inbound Action.install_certificate Word.accepted none
            (lit kind ∷ lit ":" ∷ lit hash.serial_number ∷ [])
            (record s {
              installed_certificates =
                  put (certificate_hash_key c hash)
                    (record { certificate_type = kind; hash = hash; pem = pem })
                    s.installed_certificates;
            }),
        Word.accepted,
      )
]

-- The loop over the installed certificates.
unfoldable pub hashes_of : String → Map String InstalledCertificate → List CertificateHash
hashes_of kind [] = []
hashes_of kind ((key, certificate) ∷ rest) =
    let later = hashes_of kind rest in
    if str_eq certificate.certificate_type kind then certificate.hash ∷ later else later

unfoldable pub hash_le : Crypto → CertificateHash → CertificateHash → Bool
unfolding certificate_hash_key
hash_le c a b = string_le (certificate_hash_key c a) (certificate_hash_key c b)

abbrev pub listing_word : List CertificateHash → Word
listing_word [] = Word.not_found
listing_word (entry ∷ entries) = Word.accepted

unfoldable pub on_get_installed_certificate_ids :
    Crypto → Env → String → Simulator → Simulator × Word × List CertificateHash
unfolding hashes_of hash_le emit
on_get_installed_certificate_ids c env kind s =
    let entries = sort (hash_le c) (hashes_of kind s.installed_certificates) in
    let detail = lit "type=" ∷ lit kind ∷ lit " count=" ∷ num (pos (length entries)) ∷ [] in
    (
      emit env inbound Action.get_installed_certificate_ids (listing_word entries) none detail s,
      listing_word entries,
      entries,
    )

unfoldable pub on_delete_certificate : Crypto → Env → CertificateHash → Simulator → Simulator × Word
unfolding certificate_hash_key emit
on_delete_certificate c env hash s =
    let key = certificate_hash_key c hash in
    let found = is_some (get key s.installed_certificates) in
    let s' =
      if found
      then record s { installed_certificates = remove key s.installed_certificates }
      else s in
    let status = if found then Word.accepted else Word.not_found in
    (
      emit env inbound Action.delete_certificate status none (lit hash.serial_number ∷ []) s',
      status,
    )
