-- ===== src/Certificates/Laws.antt =====
-- Certificates that are installed are listed, and deleted once.
use ocpp_cli.Prelude.{
  ◌≡◌, refl, ap, ◌∙◌, String, Bool, true, false, ◌||◌, none, some, List, [], ◌∷◌, any, sort,
  insert_sorted, str_eq, str_eq_iff, is_some, arith, if◌then◌else◌,
}
use ocpp_cli.Prelude.Int.{string_eq}
use ocpp_cli.Prelude.Maps.{Map, get, put, remove, get-remove}
use ocpp_cli.Ocpp.{Word, Action, Piece, inbound}
use ocpp_cli.Station.{Simulator, CertificateHash, InstalledCertificate, Env}
use ocpp_cli.Station.Emit.{emit}
use ocpp_cli.Logs.Laws.{emit-frame}
use ocpp_cli.Certificates.{
  Crypto, Certificate, parse_first_certificate, certificate_hash, certificate_hash_key,
  on_install_certificate, hashes_of, hash_le, listing_word, on_get_installed_certificate_ids,
  on_delete_certificate,
}

module _ {ℓ} {A : Type ℓ} (le : A → A → Bool) (p : A → Bool) where
  any-insert_sorted : (a : A) (xs : List A) → any p (insert_sorted le a xs) ≡ any p (a ∷ xs)
  unfolding insert_sorted
  any-insert_sorted a [] = refl
  any-insert_sorted a (x ∷ xs) = ground (arith, any-insert_sorted a xs)

  -- Sorting keeps what is there.
  any-sort : (xs : List A) → any p (sort le xs) ≡ any p xs
  unfolding sort
  any-sort [] = refl
  any-sort (x ∷ xs) = any-insert_sorted x (sort le xs) ∙ ap (λ b. p x || b) (any-sort xs)

any-hashes_of :
    (p : CertificateHash → Bool) (kind key : String) (certificate : InstalledCertificate)
    (m : Map String InstalledCertificate)
    → certificate.certificate_type ≡ kind
    → p certificate.hash ≡ true
    → any p (hashes_of kind (put key certificate m)) ≡ true
unfolding hashes_of put
any-hashes_of p kind key certificate [] same h =
    ground (arith, str_eq_iff certificate.certificate_type kind)
any-hashes_of p kind key certificate ((k, other) ∷ m) same h = ground (
  arith,
  str_eq_iff certificate.certificate_type kind,
  any-hashes_of p kind key certificate m same h,
)

listed :
    (p : CertificateHash → Bool) (xs : List CertificateHash)
    → any p xs ≡ true
    → listing_word xs ≡ Word.accepted
listed p [] h = cc
listed p (x ∷ xs) h = refl

emit-certificates :
    (env : Env) (a : Action) (w : Word) (p : List Piece) (s : Simulator)
    → (emit env inbound a w none p s).installed_certificates ≡ s.installed_certificates
emit-certificates env a w p s =
    ap (λ t. t.installed_certificates) (emit-frame env inbound a w none p s)

module _ (c : Crypto) (env later : Env) (kind pem : String) (s : Simulator)
    (certificate : Certificate) (parses : parse_first_certificate c pem ≡ some certificate) where
  abbrev installed : Simulator
  installed = (on_install_certificate c env kind pem s).0

  abbrev its_hash : CertificateHash
  its_hash = certificate_hash c certificate

  installed_certificates-install :
      (on_install_certificate c env kind pem s).0.installed_certificates
      ≡ put
          (certificate_hash_key c its_hash)
          (record { certificate_type = kind; hash = its_hash; pem = pem })
          s.installed_certificates
  unfolding on_install_certificate
  installed_certificates-install =
      rw (parses, on_install_certificate)
        (emit-certificates env Action.install_certificate Word.accepted
          (Piece.lit kind ∷ Piece.lit ":" ∷ Piece.lit its_hash.serial_number ∷ [])
          (record s {
            installed_certificates =
                put (certificate_hash_key c its_hash)
                  (record { certificate_type = kind; hash = its_hash; pem = pem })
                  s.installed_certificates;
          }))

  -- A certificate that parses and is installed is in the next listing of its type, which is answered
  -- "Accepted".
  pub on_get_installed_certificate_ids-install :
      let (s', word, entries) = on_get_installed_certificate_ids c later kind installed in
      (word ≡ Word.accepted)
      × (any (λ h. str_eq (certificate_hash_key c h) (certificate_hash_key c its_hash)) entries
          ≡ true)
  unfolding on_get_installed_certificate_ids
  on_get_installed_certificate_ids-install = (listed same _ there, there)
    where
      same : CertificateHash → Bool
      same h = str_eq (certificate_hash_key c h) (certificate_hash_key c its_hash)

      there : any same (sort (hash_le c) (hashes_of kind installed.installed_certificates)) ≡ true
      there =
          any-sort (hash_le c) same (hashes_of kind installed.installed_certificates)
          ∙ ap (λ m. any same (hashes_of kind m)) installed_certificates-install
          ∙ any-hashes_of same kind (certificate_hash_key c its_hash) _ s.installed_certificates
              refl
              ((str_eq_iff (certificate_hash_key c its_hash) (certificate_hash_key c its_hash)).1
                refl)

-- A deletion removes the certificate of the given hash and no other, and answers "Accepted" if it was
-- installed and "NotFound" if not.
pub on_delete_certificate_lem :
    (c : Crypto) (env : Env) (hash : CertificateHash) (s : Simulator)
    → let (s', word) = on_delete_certificate c env hash s in
      let key = certificate_hash_key c hash in
      (word
        ≡ (if is_some (get key s.installed_certificates) then Word.accepted else Word.not_found))
      × ((k : String)
          → get k s'.installed_certificates
            ≡ (if str_eq key k then none else get k s.installed_certificates))
unfolding on_delete_certificate
on_delete_certificate_lem c env hash s = (refl, kept)
  where
    key : String
    key = certificate_hash_key c hash

    found : Bool
    found = is_some (get key s.installed_certificates)

    word : Bool → Word
    word b = if b then Word.accepted else Word.not_found

    after : Bool → Simulator
    after b =
        if b then record s { installed_certificates = remove key s.installed_certificates } else s

    removed :
        (k : String) (b : Bool)
        → is_some (get key s.installed_certificates) ≡ b
        → get k (after b).installed_certificates
          ≡ (if str_eq key k then none else get k s.installed_certificates)
    removed k true h = get-remove key k s.installed_certificates
    removed k false h = ground (arith, str_eq_iff key k)

    kept :
        (k : String)
        → get k (on_delete_certificate c env hash s).0.installed_certificates
          ≡ (if str_eq key k then none else get k s.installed_certificates)
    kept k =
        ap (get k) (
          emit-certificates env Action.delete_certificate (word found)
            (Piece.lit hash.serial_number ∷ []) (after found))
        ∙ removed k found refl
