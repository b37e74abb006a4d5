-- ===== src/Config/Valid.antt =====
-- internal/config/config.go: what a configuration that loads is sure to hold.
use muthur.Prelude.{
  Text, codes, List, Bool, true, false, Option, none, some, ok, ok-injective, ℤ, pos, ltb_ℤ,
  text_eq, is_empty, not, ◌||◌, ◌&&◌, ◌≡◌, refl, subst, Bool-cases, ◌⊎◌, inl, inr, guard-true,
  >>=-eq-ok,
}
use muthur.Config.{
  Lib, Config, auth_mode_mtls, auth_mode_signed, auth_mode_enabled, parse_auth_modes, env_or,
  resolve_api_key, retries_of, interval_of,
}
use muthur.Config.Modes.{IsServed, err≢ok, parse_auth_modes-IsServed}
use muthur.Config.Load.{check_provider, check_files, validated, settings, load_with, load}

-- A provider and what it needs: the cloud provider its key, an endpoint its address and a model.
pub data HasProvider {Float : Type 0} (cfg : Config Float) : Type 0 where
  cloud :
      (is_empty cfg.llm_provider || text_eq cfg.llm_provider (codes "anthropic")) ≡ true
      → is_empty cfg.llm_api_key ≡ false
      → HasProvider cfg
  endpoint :
      (is_empty cfg.llm_provider || text_eq cfg.llm_provider (codes "anthropic")) ≡ false
      → text_eq cfg.llm_provider (codes "openai-compatible") ≡ true
      → is_empty cfg.llm_base_url ≡ false
      → is_empty cfg.llm_model ≡ false
      → HasProvider cfg

-- The files of the certificates, for the modes that are enabled.
pub record HasFiles {Float : Type 0} (cfg : Config Float) : Type 0 where
  pub trust_root : is_empty cfg.tls_trust_root_file ≡ false
  pub intermediate_ca : is_empty cfg.intermediate_ca_file ≡ false
  pub intermediate_key : is_empty cfg.intermediate_key_file ≡ false
  pub mtls :
      (auth_mode_enabled auth_mode_mtls cfg.auth_modes ≡ false)
      ⊎ ((is_empty cfg.tls_server_cert_file ≡ false) × (is_empty cfg.tls_server_key_file ≡ false))
  pub signed :
      (auth_mode_enabled auth_mode_signed cfg.auth_modes ≡ false)
      ⊎ (is_empty cfg.hpke_key_file ≡ false)

pub record IsValid {Float : Type 0} (cfg : Config Float) : Type 0 where
  pub provider : HasProvider cfg
  pub files : HasFiles cfg
  pub served : IsServed cfg.auth_modes
  pub retries : ltb_ℤ cfg.llm_max_retries (pos 0) ≡ false
  pub reloads : ltb_ℤ (pos 0) cfg.tenants_reload_interval ≡ true

not-true : (a : Bool) → not a ≡ true → a ≡ false
not-true true h = cc
not-true false h = refl

not-or : (a b : Bool) → not (a || b) ≡ true → (a ≡ false) × (b ≡ false)
not-or true b h = cc
not-or false b h = (refl, not-true b h)

not-and : (a b : Bool) → not (a && b) ≡ true → (a ≡ false) ⊎ (b ≡ false)
not-and true b h = inr (not-true b h)
not-and false b h = inl refl

or-false : (a b : Bool) → (a || b) ≡ false → (a ≡ false) × (b ≡ false)
or-false true b h = cc
or-false false b h = (refl, h)

module _ {Float : Type 0} (cfg : Config Float) where
  check_provider-HasProvider : (u : Unit {0}) → check_provider cfg ≡ ok u → HasProvider cfg
  unfolding check_provider
  check_provider-HasProvider u h =
      elim (Bool-cases
        (is_empty cfg.llm_provider || text_eq cfg.llm_provider (codes "anthropic"))) [
          | inl chosen ↦ cloud chosen (not-true _ (guard-true _ _ _ (rw chosen at h)))
          | inr other ↦ elim (Bool-cases (text_eq cfg.llm_provider (codes "openai-compatible"))) [
            | inl chosen ↦
                let (done, first, last) = >>=-eq-ok _ _ (rw (other, chosen) at h) in
                endpoint other chosen (not-true _ (guard-true _ _ _ first))
                  (not-true _ (guard-true _ _ _ last))
            | inr unknown ↦ absurd (err≢ok (rw (other, unknown) at h))
          ]
        ]

  check_files-HasFiles : (u : Unit {0}) → check_files cfg ≡ ok u → HasFiles cfg
  unfolding check_files
  check_files-HasFiles u h =
      let (done, root, h1) = >>=-eq-ok _ _ h in
      let (done1, pair, h2) = >>=-eq-ok _ _ h1 in
      let (done2, server, hpke) = >>=-eq-ok _ _ h2 in
      let (ca, key) = not-or _ _ (guard-true _ _ _ pair) in
      record {
        trust_root = not-true _ (guard-true _ _ _ root);
        intermediate_ca = ca;
        intermediate_key = key;
        mtls = elim (not-and _ _ (guard-true _ _ _ server)) [
          | inl off ↦ inl off
          | inr set ↦ inr (or-false _ _ set)
        ];
        signed = not-and _ _ (guard-true _ _ _ hpke);
      }

retries_of-not_negative : (r : ℤ × Bool) → ltb_ℤ (retries_of r) (pos 0) ≡ false
retries_of-not_negative (n, true) = refl
retries_of-not_negative (n, false) = elim (Bool-cases (ltb_ℤ n (pos 0))) [
  | inl negative ↦ rw negative
  | inr natural ↦ rw (natural, natural)
]

interval_of-positive : (d : Option ℤ) → ltb_ℤ (pos 0) (interval_of d) ≡ true
interval_of-positive none = refl
interval_of-positive (some d) = elim (Bool-cases (ltb_ℤ (pos 0) d)) [
  | inl positive ↦ rw (positive, positive)
  | inr other ↦ rw other
]

module _ {Float : Type 0} where
  validated-ok :
      (read cfg : Config Float)
      → validated read ≡ ok cfg
      → (read ≡ cfg) × HasProvider read × HasFiles read
  unfolding validated
  validated-ok read cfg h =
      let (u, provider, h1) = >>=-eq-ok _ _ h in
      let (v, files, done) = >>=-eq-ok _ _ h1 in
      (
        ok-injective _ _ done,
        check_provider-HasProvider read u provider,
        check_files-HasFiles read v files,
      )

module _ (getenv : Text → Text) {Float : Type 0} (lib : Lib Float) where
  settings-IsValid :
      (key : Text) (modes : List Text)
      → IsServed modes
      → HasProvider (settings getenv lib key modes)
      → HasFiles (settings getenv lib key modes)
      → IsValid (settings getenv lib key modes)
  unfolding settings
  settings-IsValid key modes served provider files = record {
    provider = provider;
    files = files;
    served = served;
    retries =
        retries_of-not_negative (lib.atoi (env_or getenv (codes "LLM_MAX_RETRIES") (codes "1")));
    reloads =
        interval_of-positive
          (lib.parse_duration (env_or getenv (codes "TENANTS_RELOAD_INTERVAL") (codes "5s")));
  }

  load_with-IsValid :
      (key : Text) (cfg : Config Float) → load_with getenv lib key ≡ ok cfg → IsValid cfg
  unfolding load_with
  load_with-IsValid key cfg h =
      let raw = env_or getenv (codes "AUTH_MODES") (codes "mtls") in
      let (modes, parsed, h1) =
        >>=-eq-ok (parse_auth_modes raw) (λ modes. validated (settings getenv lib key modes)) h in
      let (same, provider, files) = validated-ok (settings getenv lib key modes) cfg h1 in
      subst IsValid same
        (settings-IsValid key modes (parse_auth_modes-IsServed raw modes parsed) provider files)

  -- A configuration that loads is complete: the cloud provider has its key, another endpoint its
  -- address and model; the trust root and the intermediate certificate are set, at least one mode
  -- of authentication is enabled and each enabled one has its files, the number of retries is not
  -- negative, and the interval of reloads is positive.
  pub load-IsValid : (cfg : Config Float) → load getenv lib ≡ ok cfg → IsValid cfg
  unfolding load
  load-IsValid cfg h =
      let (key, read, last) = >>=-eq-ok (resolve_api_key getenv lib) (load_with getenv lib) h in
      load_with-IsValid key cfg last
