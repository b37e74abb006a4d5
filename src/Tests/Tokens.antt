-- ===== src/Tests/Tokens.antt =====
-- Bootstrap tokens and the tenants file.
use muthur.Prelude.{
  ℕ, Text, codes, List, [], ◌∷◌, true, Option, none, some, ok, err, ◌≡◌, ◌≢◌, refl, arith, text_eq,
  lookup, insert, has_prefix, to_lower,
}
use muthur.Store.Memory.{empty, get, set_nx}
use muthur.Store.Memory.Backend.{memory, memory_laws}
use muthur.Store.Trace.{Op, run, set}
use muthur.Auth.Bootstrap.{
  BootstrapError, BootstrapInput, BootstrapResult, issue, issue_for, mint, want_hash, window_passed,
  marker_ttl, used_key, bootstrap_identity,
}
use muthur.Auth.Bootstrap.Certified.{Certified, issue-Certified}
use muthur.Auth.Signer.RoundTrip.{CreatesTemplate}
use muthur.Auth.Bootstrap.Once.{issue_once, marker_gone_after_day}
use muthur.Auth.Bootstrap.Refusals.{issue_rolls_back}
use muthur.Auth.Identity.{extract_from_cert}
use muthur.Auth.Signer.{returned, SignError, sign, template}
use muthur.Auth.Tenants.{Tenant, Tenants, FileView, Cached, current, new_tenants, add_tenant, poll}
use muthur.Auth.Tenants.Snapshot.{From, poll-serves}
use muthur.Tests.Data.{pki, spiffe_url, id, leaf_cert, index, tenant, input, signer, same_text}

abbrev issued : BootstrapResult
issued = record {
  certificate = record {
    certificate = template signer 10 (bootstrap_identity tenant) 50 (codes "ab") (spiffe_url ∷ []);
    public_key = codes "key";
  };
  ca_pem = codes "ca";
}

first_issue : (issue memory signer same_text [] 10 (some index) input empty).0 ≡ ok issued
unfolding issue issue_for mint sign text_eq lookup want_hash window_passed marker_ttl used_key
    memory set_nx has_prefix to_lower
first_issue = refl

issue-Certified_example : Certified get signer same_text [] 10 index input empty issued
issue-Certified_example =
    issue-Certified memory memory_laws signer same_text [] 10 index input empty issued creates
      first_issue
  where
    creates : CreatesTemplate pki
    creates cert key leaf e = ground arith

abbrev later_write : List Op
later_write = set 20 (codes "k") (codes "v") 0 ∷ []

not_the_marker : codes "k" ≢ used_key memory signer same_text [] (codes "c1")
unfolding used_key
not_the_marker e = cc

found : lookup (codes "c1") index ≡ some tenant
unfolding lookup
found = refl

issue_once_example :
    (issue memory signer same_text [] 500
      (some index)
      input
      (run memory later_write (issue memory signer same_text [] 10 (some index) input empty).1)).0
    ≢ ok issued
issue_once_example =
    issue_once memory memory_laws signer same_text [] 10 500 index index input input empty
      later_write issued issued tenant 1000 first_issue found refl refl found (omega arith, tt)
      (not_the_marker, tt) (omega arith)

abbrev lasting : Tenant
lasting = record tenant { bootstrap_expires_at = none }

abbrev lasting_index : Tenants
lasting_index = (codes "c1", lasting) ∷ []

lasting_found : lookup (codes "c1") lasting_index ≡ some lasting
unfolding lookup
lasting_found = refl

lasting_issue : (issue memory signer same_text [] 10 (some lasting_index) input empty).0 ≡ ok issued
unfolding issue issue_for mint sign text_eq lookup want_hash window_passed marker_ttl used_key
    memory set_nx has_prefix to_lower
lasting_issue = refl

marker_gone_after_day_example :
    get 86400000000011 (used_key memory signer same_text [] (codes "c1")) (
      run memory later_write
        (issue memory signer same_text [] 10 (some lasting_index) input empty).1)
    ≡ none
marker_gone_after_day_example =
    marker_gone_after_day memory memory_laws signer same_text [] 10 86400000000011 lasting_index
      input empty later_write issued lasting lasting_issue lasting_found refl (not_the_marker, tt)
      (omega arith)

abbrev barred : Tenant
barred = record tenant { revoked = true }

abbrev barred_index : Tenants
barred_index = (codes "c1", barred) ∷ []

barred_found : lookup (codes "c1") barred_index ≡ some barred
unfolding lookup
barred_found = refl

abbrev bad_input : BootstrapInput
bad_input = record input { csr_pem = codes "?" }

right_token : text_eq (want_hash tenant) (codes "token") ≡ true
unfolding text_eq want_hash has_prefix to_lower
right_token = refl

claim :
    memory.set_nx 10
      (used_key memory signer same_text [] (codes "c1"))
      (1 ∷ [])
      (marker_ttl (some 1000) 10)
      empty
    ≡ (
      ok true,
      (memory.set_nx 10
          (used_key memory signer same_text [] (codes "c1"))
          (1 ∷ [])
          (marker_ttl (some 1000) 10)
          empty).1,
    )
unfolding memory set_nx
claim = refl

refused :
    sign signer 10 (codes "?") (bootstrap_identity tenant) 50 ≡ err (returned SignError.parse_csr)
unfolding sign text_eq
refused = refl

issue_rolls_back_example :
    ((issue memory signer same_text [] 10 (some index) bad_input empty).0
      ≡ err BootstrapError.bad_request)
    × (get 11
          (used_key memory signer same_text [] (codes "c1"))
          (issue memory signer same_text [] 10 (some index) bad_input empty).1
        ≡ none)
issue_rolls_back_example =
    issue_rolls_back memory signer same_text [] memory_laws 10 11 index bad_input empty
      (memory.set_nx 10 (used_key memory signer same_text [] (codes "c1")) (1 ∷ [])
        (marker_ttl (some 1000) 10) empty).1
      tenant SignError.parse_csr refl found refl (unfold window_passed in refl) right_token claim
      refused (unfold memory in refl) (omega arith)

abbrev no_duration : Text → Option ℕ
no_duration t = none

built : new_tenants no_duration (tenant ∷ []) ≡ ok index
unfolding new_tenants add_tenant lookup insert
built = refl

abbrev decoded : Text → Option (List Tenant)
decoded t = some (tenant ∷ [])

abbrev torn : FileView
torn = record { mtime = some 5; content = none }

abbrev served : Option Cached
served = some (record { tenants = barred_index; mtime = 1 })

poll-serves_example :
    (t : Tenants) × (current (poll no_duration decoded (torn ∷ []) served) ≡ some t)
    × From no_duration decoded (torn ∷ []) barred_index t
poll-serves_example = poll-serves no_duration decoded (torn ∷ []) served barred_index refl

abbrev newer : FileView
newer = record { mtime = some 5; content = some (codes "yaml") }

read :
    extract_from_cert (some leaf_cert)
    ≡ ok (record id { not_after = 7; serial_number = codes "ab" })
unfolding extract_from_cert
read = refl
