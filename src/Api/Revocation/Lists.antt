-- ===== src/Api/Revocation/Lists.antt =====
-- What a revocation puts on the list of its CA.
use vaul_tls.Base.{
  ℕ, ◌/◌, ◌≡◌, refl, sym, ap, ◌∙◌, Bool, true, false, Option, none, some, List, [], ◌∷◌, ◌++◌, Any,
  find, select, inl, inr, ◌==◌, ==_refl, Bool-cases, Option-cases, subst, arith,
}
use vaul_tls.Base.Result.{Result, ok, err}
use vaul_tls.Base.Outcome.{
  Outcome, Outcome-lift, Outcome-pure, Outcome-require, Outcome-ensure, Outcome-gets,
  Outcome-modify,
}
use vaul_tls.Base.Tables.{find-update}
use vaul_tls.Text.{Text, is_empty}
use vaul_tls.Db.Rows.{Bytes, Db, CertificateRow, VersionRow, Ca}
use vaul_tls.Db.Certs.{get_user_cert_by_id, revoke_user_cert, increase_ca_crl_number}
use vaul_tls.Db.Versions.{revoked_serial, revoked_serials}
use vaul_tls.Db.Versions.Revoked.{Any-append, Any-append_left}
use vaul_tls.Api.Errors.{ApiError}
use vaul_tls.Api.Revocation.{
  hex_decode, history_serials, cons_serial, current_serials, revocation_time, append_history,
  revoke_cert_and_update_crl,
}

-- The row that a search finds is selected if it passes the test.
pub Any-select-find :
    {A : Type 0} (p q : A → Bool) (xs : List A) (x : A)
    → find q xs ≡ some x
    → p x ≡ true
    → Any (λ y. y ≡ x) (select p xs)
Any-select-find p q [] x e passes = cc
Any-select-find p q (y ∷ xs) x e passes = elim (Bool-cases (q y)) [
  | inl hit ↦
      let same : y ≡ x = ground (arith, rw hit at e) in
      let kept : p y ≡ true = ap p same ∙ passes in rw kept (inl same)
  | inr miss ↦ elim (Bool-cases (p y)) [
    | inl kept ↦ rw kept (inr (Any-select-find p q xs x (rw miss at e) passes))
    | inr left ↦ rw left (Any-select-find p q xs x (rw miss at e) passes)
  ]
]

cons_serial-eq-ok :
    (message : Text) (o : Option Bytes) (at : ℕ) (r : Result ApiError (List (Bytes × ℕ)))
    {out : List (Bytes × ℕ)}
    → cons_serial message o at r ≡ ok out
    → (serial : Bytes) × (rest : List (Bytes × ℕ)) × (o ≡ some serial)
      × (r ≡ ok rest)
      × (out ≡ (serial, at) ∷ rest)
cons_serial-eq-ok message none at r e = cc
cons_serial-eq-ok message (some serial) at (err problem) e = cc
cons_serial-eq-ok message (some serial) at (ok rest) e = (serial, rest, refl, refl, cc)

module _ (get_serial : CertificateRow → Option Bytes) (message : Text) (c : CertificateRow) where
  -- A list that is made has each certificate's serial, which could be read.
  pub current_serials-has :
      (xs : List CertificateRow) (out : List (Bytes × ℕ))
      → Any (λ x. x ≡ c) xs
      → current_serials get_serial message xs ≡ ok out
      → (serial : Bytes) × (get_serial c ≡ some serial)
        × Any (λ (e : Bytes × ℕ). e ≡ (serial, revocation_time c.revoked_at)) out
  unfolding current_serials
  current_serials-has [] out a e = absurd a
  current_serials-has (x ∷ xs) out (inl same) e =
      let (s, rest, here, tail, made) = cons_serial-eq-ok _ _ _ _ e in
      let readable : get_serial c ≡ some s = cc (here, same) in
      (s, readable, rw made (inl (rw same refl)))
  current_serials-has (x ∷ xs) out (inr later) e =
      let (s, rest, here, tail, made) = cons_serial-eq-ok _ _ _ _ e in
      let (serial, readable, listed) = current_serials-has xs rest later tail in
      (serial, readable, rw made (inr listed))

pub history_serials-has :
    (hex : Text) (at : ℕ) (serial : Bytes) (xs : List (Text × ℕ))
    → hex_decode hex ≡ some serial
    → Any (λ (e : Text × ℕ). e ≡ (hex, at)) xs
    → Any (λ (e : Bytes × ℕ). e ≡ (serial, at)) (history_serials xs)
unfolding history_serials
history_serials-has hex at serial [] d a = absurd a
history_serials-has hex at serial (entry ∷ xs) d (inl same) =
    let here : hex_decode entry.0 ≡ some serial = rw same d in
    rw (history_serials, here, same) (inl refl)
history_serials-has hex at serial (entry ∷ xs) d (inr later) =
    elim (Option-cases (hex_decode entry.0)) [
      | inl bad ↦ rw (history_serials, bad) (history_serials-has hex at serial xs d later)
      | inr (s, good) ↦
          rw (history_serials, good) (inr (history_serials-has hex at serial xs d later))
    ]

-- A version in the table is among those that are joined.
pub revoked_serials-has :
    (P : Text × ℕ → Type 0) (ca_id : ℕ) (certs : List CertificateRow) (v : VersionRow)
    (vs : List VersionRow)
    → Any (λ w. w ≡ v) vs
    → Any P (revoked_serial ca_id certs v)
    → Any P (revoked_serials ca_id certs vs)
revoked_serials-has P ca_id certs v [] a h = absurd a
revoked_serials-has P ca_id certs v (w ∷ vs) (inl same) h =
    Any-append_left P (revoked_serial ca_id certs w) _
      (subst (λ x. Any P (revoked_serial ca_id certs x)) (sym same) h)
revoked_serials-has P ca_id certs v (w ∷ vs) (inr later) h =
    Any-append P (revoked_serial ca_id certs w) _ (revoked_serials-has P ca_id certs v vs later h)

pub hex_decode-nonempty :
    (s : Text) {serial : Bytes} → hex_decode s ≡ some serial → is_empty s ≡ false
unfolding hex_decode
hex_decode-nonempty [] e = cc
hex_decode-nonempty (c ∷ s) e = refl

-- The row of a certificate that is revoked.
abbrev pub revoked_row : ℕ → CertificateRow → CertificateRow
revoked_row now c = record c { revoked_at = some (now / 1000) }

abbrev pub Revoked : ℕ → ℕ → Db → Result ApiError CertificateRow → Db → Type 0
Revoked now id db (err e) after = Unit
Revoked now id db (ok cert) after =
    (ca_id : ℕ) × (n : ℕ) × (get_user_cert_by_id id db ≡ some cert)
    × (after ≡ increase_ca_crl_number ca_id n (revoke_user_cert now id db))

pub revoke-Revoked :
    (publish : Ca → Db → Result ApiError ℕ) (now id : ℕ) (db : Db)
    → Outcome (Revoked now id db) (revoke_cert_and_update_crl publish now id) db
unfolding revoke_cert_and_update_crl
revoke-Revoked publish now id db =
    let Q = Revoked now id db in
    Outcome-require Q _ _ _ db
      (λ cert found.
        Outcome-ensure Q _ _ _ db
          (λ _.
            Outcome-lift Q _ _ db
              (λ ca_id _.
                Outcome-require Q _ _ _ db
                  (λ ca _.
                    Outcome-ensure Q _ _ _ db
                      (λ _. Outcome-modify Q _ _ db (
                        Outcome-gets Q _ _ _ (
                          Outcome-lift Q _ _ _
                            (λ n _.
                              Outcome-modify Q _ _ _ (Outcome-pure Q _ _ (ca.id, n, found, refl)))
                            (λ _ _. tt))))
                      (λ _. tt))
                  (λ _. tt))
              (λ _ _. tt))
          (λ _. tt))
      (λ _. tt)

pub append_history-eq-ok :
    (r : Result ApiError (List (Bytes × ℕ))) (h : List (Bytes × ℕ)) {params : List (Bytes × ℕ)}
    → append_history r h ≡ ok params
    → (current : List (Bytes × ℕ)) × (r ≡ ok current) × (params ≡ current ++ h)
append_history-eq-ok (err e) h same = cc
append_history-eq-ok (ok current) h same = (current, refl, cc)

pub found-revoked :
    (now id : ℕ) (db : Db) (c : CertificateRow)
    → get_user_cert_by_id id db ≡ some c
    → find (λ (r : CertificateRow). r.id == id) (revoke_user_cert now id db).certs
      ≡ some (revoked_row now c)
unfolding get_user_cert_by_id revoke_user_cert
found-revoked now id db c found =
    find-update (λ (r : CertificateRow). r.id) id id (revoked_row now) db.certs (λ _. refl)
    ∙ rw (==_refl id, found) refl
