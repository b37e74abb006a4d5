-- ===== src/Auth/Tenants.antt =====
-- internal/auth/bootstrap.go: the tenants index, and internal/auth/tenants_reloader.go: its reload
-- from a file. `time.ParseDuration`, the file system and the YAML decoder are parameters; the poll is
-- one call of `reload`.
pub mod Index
pub mod Snapshot
use muthur.Prelude.{
  ℕ, Text, List, [], ◌∷◌, Bool, true, false, Option, none, some, Result, ok, err, ◌>>=◌, Map,
  lookup, insert, is_empty, ◌==◌, ltb, not, ◌&&◌, length, if◌then◌else◌,
}

pub record Tenant : Type 0 where
  pub cluster_id : Text
  pub tenant_id : Text
  pub bootstrap_token_hash : Text
  -- The zero time is `none`.
  pub bootstrap_expires_at : Option ℕ
  pub revoked : Bool
  pub cert_duration : ℕ
  pub cert_duration_str : Text

abbrev pub Tenants : Type 0
Tenants = Map Tenant

pub data TenantsError : Type 0 where
  missing_cluster_id : TenantsError
  duplicate_cluster_id : Text → TenantsError
  bad_cert_duration : Text → TenantsError

module _ (parse_duration : Text → Option ℕ) where
  abbrev set_duration : Tenant → Option ℕ → Result TenantsError Tenant
  set_duration t none = err (bad_cert_duration t.cluster_id)
  set_duration t (some d) = ok (record t { cert_duration = d })

  -- The duration text is read only where no duration is set.
  unfoldable pub with_duration : Tenant → Result TenantsError Tenant
  with_duration t =
      if not (is_empty t.cert_duration_str) && (t.cert_duration == 0)
      then set_duration t (parse_duration t.cert_duration_str)
      else ok t

  -- One round of the loop of `NewTenants`.
  unfoldable pub add_tenant : Tenants → Tenant → Result TenantsError Tenants
  unfolding with_duration
  add_tenant idx t =
      if is_empty t.cluster_id then err missing_cluster_id else elim (lookup t.cluster_id idx) [
        | some _ ↦ err (duplicate_cluster_id t.cluster_id)
        | none ↦ with_duration t >>= λ t'. ok (insert t'.cluster_id t' idx)
      ]

  unfoldable pub add_tenants : Tenants → List Tenant → Result TenantsError Tenants
  add_tenants idx [] = ok idx
  add_tenants idx (t ∷ ts) = add_tenant idx t >>= λ idx'. add_tenants idx' ts

  unfoldable pub new_tenants : List Tenant → Result TenantsError Tenants
  unfolding add_tenants
  new_tenants list = add_tenants [] list

pub data ReloadError : Type 0 where
  stat_failed : ReloadError
  read_failed : ReloadError
  parse_failed : ReloadError
  build_failed : TenantsError → ReloadError

-- What a poll finds on disk: the modification time, the content, and its decoding.
pub record FileView : Type 0 where
  pub mtime : Option ℕ
  pub content : Option Text

pub record Cached : Type 0 where
  pub tenants : Tenants
  pub mtime : ℕ

abbrev pub current : Option Cached → Option Tenants
current none = none
current (some c) = some c.tenants

abbrev store_new :
    Option Cached → ℕ → Result TenantsError Tenants → Result ReloadError Bool × Option Cached
store_new old mtime (err e) = (err (build_failed e), old)
store_new old mtime (ok t) = (ok true, some (record { tenants = t; mtime = mtime }))

-- The cached state is not older than the file.
abbrev up_to_date : Option Cached → ℕ → Bool
up_to_date none mtime = false
up_to_date (some c) mtime = not (ltb c.mtime mtime)

module _ (parse_duration : Text → Option ℕ) (unmarshal : Text → Option (List Tenant)) where
  abbrev decode : Option Cached → ℕ → Option Text → Result ReloadError Bool × Option Cached
  decode old mtime none = (err read_failed, old)
  decode old mtime (some content) = elim (unmarshal content) [
    | none ↦ (err parse_failed, old)
    | some list ↦ store_new old mtime (new_tenants parse_duration list)
  ]

  -- `reload`: whether the tenants changed, or an error, and the state afterwards.
  unfoldable pub reload : FileView → Option Cached → Result ReloadError Bool × Option Cached
  unfolding new_tenants
  reload f old = elim f.mtime [
    | none ↦ (err stat_failed, old)
    | some mtime ↦ if up_to_date old mtime then (ok false, old) else decode old mtime f.content
  ]

  -- `NewTenantsReloader` and the polls of `loop` after it.
  unfoldable pub poll : List FileView → Option Cached → Option Cached
  unfolding reload
  poll [] c = c
  poll (f ∷ fs) c = poll fs (reload f c).1
