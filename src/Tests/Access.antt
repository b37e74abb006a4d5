-- ===== src/Tests/Access.antt =====
-- Requests: replay, identities, admission, renewal.
use muthur.Prelude.{
  codes, List, [], ◌∷◌, true, false, some, ok, ◌≡◌, ◌≢◌, refl, arith, text_eq, lookup, trim_space,
}
use muthur.Store.Memory.{Memory, empty, get, set_nx}
use muthur.Store.Memory.Backend.{memory, memory_laws}
use muthur.Store.Trace.{Op, run, set}
use muthur.Auth.Identity.{Identity, extract_from_cert}
use muthur.Auth.Identity.Extract.{IsUsable}
use muthur.Auth.Replay.{
  ReplayGuard, new_replay_guard, verify, claim_nonce, check_timestamp, check_nonce, nonce_key,
  is_hex_string,
}
use muthur.Auth.Replay.Single.{verify_once}
use muthur.Auth.Replay.Isolation.{verify_isolated}
use muthur.Auth.Renew.{RenewResult, issue, issue_for}
use muthur.Auth.Signer.{sign, template}
use muthur.Auth.Signer.RoundTrip.{CreatesTemplate, extract-sign}
use muthur.Grpc.{
  server_sign_csr, auth_interceptor, revocation_interceptor, replay_interceptor, first_meta, ingest,
  Call, tls, intercepted, server_ingest, exempt,
}
use muthur.Grpc.Renewal.{Renewing, sign_csr-Renewing}
use muthur.Grpc.Admission.{Admitted, ingest-Admitted}
use muthur.Tests.Data.{spiffe_url, id, nonce, hundred, leaf_cert, index, alert, signer, pki}

abbrev guard : ReplayGuard
guard = new_replay_guard 0 []

accepted :
    (verify memory (new_replay_guard 0 []) hundred (some id) (codes "100") nonce empty).0 ≡ ok tt
unfolding verify new_replay_guard check_timestamp check_nonce claim_nonce memory set_nx
accepted = refl

abbrev later_write : List Op
later_write = set 100000000001 (codes "k") (codes "v") 0 ∷ []

not_the_nonce : codes "k" ≢ nonce_key (new_replay_guard 0 []) id nonce
unfolding nonce_key new_replay_guard
not_the_nonce e = cc

verify_once_example :
    (verify memory (new_replay_guard 0 []) 100000000002 (some id) (codes "100") nonce (
      run memory later_write
        (verify memory (new_replay_guard 0 []) hundred (some id) (codes "100") nonce empty).1)).0
    ≢ ok tt
verify_once_example =
    verify_once memory memory_laws 0 [] id id (codes "100") nonce hundred 100000000002 empty
      later_write refl accepted (omega arith, tt) (not_the_nonce, tt) (omega arith)

abbrev stranger : Identity
stranger = record id { tenant_id = codes "t2" }

stranger-IsUsable : IsUsable stranger
stranger-IsUsable = record {
  cluster = λ e. cc;
  plain = λ _. (((λ e. cc), ((λ e. cc), tt)), ((λ e. cc), ((λ e. cc), tt)));
}

id-IsUsable : IsUsable id
id-IsUsable = record {
  cluster = λ e. cc;
  plain = λ _. (((λ e. cc), ((λ e. cc), tt)), ((λ e. cc), ((λ e. cc), tt)));
}

other_tenant : codes "t2" ≢ codes "t1"
other_tenant e = ground arith

abbrev after_stranger : Memory
after_stranger =
    (verify memory (new_replay_guard 0 []) hundred (some stranger) (codes "100") nonce empty).1

nonce-is_hex : is_hex_string nonce ≡ true
unfolding is_hex_string
nonce-is_hex = refl

verify_isolated_example :
    get hundred (nonce_key (new_replay_guard 0 []) id nonce) after_stranger
    ≡ get hundred (nonce_key (new_replay_guard 0 []) id nonce) empty
verify_isolated_example =
    verify_isolated (new_replay_guard 0 []) memory memory_laws stranger id stranger-IsUsable
      id-IsUsable (λ e. cc) (λ e. cc) (λ e. other_tenant e.0) hundred hundred (codes "100") nonce
      nonce empty nonce-is_hex

minted :
    sign signer 10 (codes "csr") id 50
    ≡ ok (record {
      certificate = template signer 10 id 50 (codes "ab") (spiffe_url ∷ []);
      public_key = codes "key";
    })
unfolding sign text_eq
minted = refl

pki-CreatesTemplate : CreatesTemplate pki
pki-CreatesTemplate cert key leaf e = ground arith

extract-sign_example :
    (i : Identity) × (extract_from_cert
        (some (template signer 10 id 50 (codes "ab") (spiffe_url ∷ [])))
      ≡ ok i)
    × (i.tenant_id ≡ codes "t1")
    × (i.cluster_id ≡ codes "c1")
    × (i.not_after ≡ (template signer 10 id 50 (codes "ab") (spiffe_url ∷ [])).not_after)
extract-sign_example =
    extract-sign signer 10 (codes "csr") id 50
      (record {
        certificate = template signer 10 id 50 (codes "ab") (spiffe_url ∷ []);
        public_key = codes "key";
      })
      pki-CreatesTemplate (λ i t c. refl) (λ e. cc) (λ e. cc) (refl, (refl, tt)) (refl, (refl, tt))
      minted

abbrev renewed : RenewResult
renewed = record {
  certificate = record {
    certificate = template signer 10 id 50 (codes "ab") (spiffe_url ∷ []);
    public_key = codes "key";
  };
  ca_pem = codes "ca";
}

renewal : issue signer 10 (some id) (some index) (codes "csr") ≡ ok renewed
unfolding issue issue_for sign lookup text_eq
renewal = refl

abbrev call : Call
call = record {
  method = codes "/monitoring.v1.Brain/Ingest";
  peer = tls (leaf_cert ∷ []);
  timestamps = codes "100" ∷ [];
  nonces = nonce ∷ [];
}

gated : exempt (codes "/monitoring.v1.Brain/Ingest") ≡ false
unfolding exempt text_eq
gated = refl

admitted :
    (intercepted memory
      (new_replay_guard 0 [])
      hundred
      (some index)
      call
      (server_ingest alert)
      (empty, [])).0
    ≡ ok tt
unfolding text_eq intercepted auth_interceptor exempt extract_from_cert revocation_interceptor
    lookup replay_interceptor verify check_timestamp first_meta new_replay_guard check_nonce
    claim_nonce memory set_nx server_ingest ingest trim_space
admitted = refl

ingest-Admitted_example :
    Admitted memory (new_replay_guard 0 []) hundred (some index) call alert empty
    × ((intercepted memory
          (new_replay_guard 0 [])
          hundred
          (some index)
          call
          (server_ingest alert)
          (empty, [])).1.1
        ≡ alert ∷ [])
ingest-Admitted_example =
    ingest-Admitted memory (new_replay_guard 0 []) hundred (some index) call alert empty [] gated
      admitted

abbrev renew_call : Call
renew_call = record call { method = codes "/monitoring.v1.Brain/SignCSR" }

abbrev renewed_at : RenewResult
renewed_at = record {
  certificate = record {
    certificate =
        template signer hundred (record id { not_after = 7; serial_number = codes "ab" }) 50
          (codes "ab") (spiffe_url ∷ []);
    public_key = codes "key";
  };
  ca_pem = codes "ca";
}

renew_gated : exempt (codes "/monitoring.v1.Brain/SignCSR") ≡ false
unfolding exempt text_eq
renew_gated = refl

renew_admitted :
    (intercepted memory
      (new_replay_guard 0 [])
      hundred
      (some index)
      renew_call
      (server_sign_csr signer hundred (some index) (codes "csr"))
      (empty, tt)).0
    ≡ ok renewed_at
unfolding text_eq intercepted auth_interceptor exempt extract_from_cert revocation_interceptor
    lookup replay_interceptor verify check_timestamp first_meta new_replay_guard check_nonce
    claim_nonce memory set_nx server_sign_csr issue issue_for sign trim_space
renew_admitted = refl

sign_csr-Renewing_example :
    Renewing memory
      (new_replay_guard 0 [])
      signer
      hundred
      (some index)
      renew_call
      (codes "csr")
      empty
      renewed_at
sign_csr-Renewing_example =
    sign_csr-Renewing memory (new_replay_guard 0 []) signer hundred (some index) renew_call
      (codes "csr") empty tt renewed_at pki-CreatesTemplate renew_gated renew_admitted
