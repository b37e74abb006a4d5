-- ===== src/Tests/Data.antt =====
-- The inputs that the runs share.
use muthur.Prelude.{
  drop, ℕ, Text, codes, [], ◌∷◌, true, false, none, some, pos, text_eq, if◌then◌else◌,
}
use muthur.Alert.{AlertPayload}
use muthur.Auth.Bootstrap.{BootstrapInput}
use muthur.Auth.Identity.{Identity, Certificate, Url}
use muthur.Auth.Signer.{Csr, Pki, Signer, thirty_days}
use muthur.Auth.Tenants.{Tenant, Tenants}

abbrev pub alert : AlertPayload
alert = record {
  cluster_id = codes "c1";
  alert_name = codes "Crash";
  severity = codes "warning";
  namespace = codes "ns";
  pod_name = codes "pod";
  fired_at = pos 5;
  summary = [];
  description = [];
  target = none;
  labels = [];
  status = codes "firing";
  grafana_base_url = [];
}

abbrev pub other_alert : AlertPayload
other_alert = record alert { alert_name = codes "Disk"; severity = codes "critical" }

abbrev pub resolved_alert : AlertPayload
resolved_alert = record alert { status = codes "resolved" }

-- Stands for a digest.
abbrev pub same_text : Text → Text
same_text t = t

-- A clock of whole seconds: the hundredth.
abbrev pub hundred : ℕ
hundred = 100000000000

abbrev pub id : Identity
id = record { tenant_id = codes "t1"; cluster_id = codes "c1"; not_after = 0; serial_number = [] }

abbrev pub spiffe_url : Url
spiffe_url = record { scheme = codes "spiffe"; host = codes "muthur"; path = codes "/t1/c1" }

abbrev pub leaf_cert : Certificate
leaf_cert = record {
  uris = spiffe_url ∷ [];
  common_name = codes "c1";
  not_after = 7;
  serial_hex = codes "AB";
}

abbrev pub csr : Csr
csr = record { public_key = codes "key"; signed = true }

abbrev pub pki : Pki
pki = record {
  parse_csr_pem = λ t. if text_eq t (codes "csr") then some csr else none;
  parse_url =
      λ t. some (record { scheme = codes "spiffe"; host = codes "muthur"; path = drop 15 t });
  random_serial = some (codes "ab");
  create = λ c key. some (record { certificate = c; public_key = key });
}

abbrev pub signer : Signer
signer = record { pki = pki; max_leaf_duration = thirty_days; ca_cert_pem = codes "ca" }

abbrev pub tenant : Tenant
tenant = record {
  cluster_id = codes "c1";
  tenant_id = codes "t1";
  bootstrap_token_hash = codes "sha256:token";
  bootstrap_expires_at = some 1000;
  revoked = false;
  cert_duration = 50;
  cert_duration_str = [];
}

abbrev pub index : Tenants
index = (codes "c1", tenant) ∷ []

abbrev pub input : BootstrapInput
input = record { cluster_id = codes "c1"; bootstrap_token = codes "token"; csr_pem = codes "csr" }

abbrev pub nonce : Text
nonce = codes "0123456789abcdef0123456789abcdef"
