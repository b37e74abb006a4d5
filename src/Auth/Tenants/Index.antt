-- ===== src/Auth/Tenants/Index.antt =====
-- The index holds exactly the listed tenants.
use muthur.Prelude.{
  ℕ, Text, List, [], ◌∷◌, false, Option, none, some, ok, ◌≡◌, refl, arith, lookup, insert,
  lookup-insert, text_eq_iff, In, inl, inr, ◌⊎◌, >>=-eq-ok, Option-cases, is_empty, text_eq,
  lookup-insert_self, subst, Bool-cases, ◌>>=◌, sym, ◌∙◌, All,
}
use muthur.Auth.Tenants.{Tenant, Tenants, with_duration, add_tenant, add_tenants, new_tenants}

-- Two entries agree in all that guards a tenant. The certificate's duration may have been parsed.
pub record SameGuards (t t' : Tenant) : Type 0 where
  pub cluster : t'.cluster_id ≡ t.cluster_id
  pub tenant : t'.tenant_id ≡ t.tenant_id
  pub token : t'.bootstrap_token_hash ≡ t.bootstrap_token_hash
  pub expiry : t'.bootstrap_expires_at ≡ t.bootstrap_expires_at
  pub revoked : t'.revoked ≡ t.revoked

-- The index has the entry of `t`.
pub record Indexed (idx : Tenants) (t : Tenant) : Type 0 where
  pub entry : Tenant
  pub found : lookup t.cluster_id idx ≡ some entry
  pub same : SameGuards t entry

module _ (parse_duration : Text → Option ℕ) where
  with_duration-SameGuards :
      (t t' : Tenant) → with_duration parse_duration t ≡ ok t' → SameGuards t t'
  unfolding with_duration
  with_duration-SameGuards t t' e = ground arith

  -- What one round does on success.
  record Added (idx : Tenants) (t : Tenant) (idx' : Tenants) : Type 0 where
    named : is_empty t.cluster_id ≡ false
    new : lookup t.cluster_id idx ≡ none
    entry : Tenant
    same : SameGuards t entry
    result : idx' ≡ insert entry.cluster_id entry idx

  add_tenant-Added :
      (idx : Tenants) (t : Tenant) (idx' : Tenants)
      → add_tenant parse_duration idx t ≡ ok idx'
      → Added idx t idx'
  unfolding add_tenant
  add_tenant-Added idx t idx' e = elim (Option-cases (lookup t.cluster_id idx)) [
    | inr (old, found) ↦ absurd (ground arith)
    | inl new ↦
        let step : (with_duration parse_duration t >>= λ t'. ok (insert t'.cluster_id t' idx))
            ≡ ok idx' =
          ground arith in
        let (entry, parsed, result) =
          >>=-eq-ok (with_duration parse_duration t) (λ t'. ok (insert t'.cluster_id t' idx))
            step in
        record {
          named = ground arith;
          new = new;
          entry = entry;
          same = with_duration-SameGuards t entry parsed;
          result = ground arith;
        }
  ]

  Indexed-insert :
      (idx : Tenants) (t : Tenant) (k : Text) (v : Tenant)
      → lookup k idx ≡ none
      → Indexed idx t
      → Indexed (insert k v idx) t
  Indexed-insert idx t k v new i = record {
    entry = i.entry;
    found = ground (arith, i.found, lookup-insert k t.cluster_id v idx, text_eq_iff k t.cluster_id);
    same = i.same;
  }

  add_tenant-keeps :
      (idx : Tenants) (t u : Tenant) (idx' : Tenants)
      → add_tenant parse_duration idx u ≡ ok idx'
      → Indexed idx t
      → Indexed idx' t
  add_tenant-keeps idx t u idx' e i =
      let a = add_tenant-Added idx u idx' e in
      rw a.result (Indexed-insert idx t a.entry.cluster_id a.entry (rw a.same.cluster a.new) i)

  add_tenant-Indexed :
      (idx : Tenants) (t : Tenant) (idx' : Tenants)
      → add_tenant parse_duration idx t ≡ ok idx'
      → Indexed idx' t
  add_tenant-Indexed idx t idx' e =
      let a = add_tenant-Added idx t idx' e in
      record {
        entry = a.entry;
        found = rw (a.result, ← a.same.cluster) (lookup-insert_self a.entry.cluster_id a.entry idx);
        same = a.same;
      }

  add_tenants-keeps :
      (idx : Tenants) (t : Tenant) (list : List Tenant) (idx' : Tenants)
      → add_tenants parse_duration idx list ≡ ok idx'
      → Indexed idx t
      → Indexed idx' t
  unfolding add_tenants
  add_tenants-keeps idx t [] idx' e i = subst (λ x. Indexed x t) (ground arith) i
  add_tenants-keeps idx t (u ∷ us) idx' e i =
      let (mid, first, rest) =
        >>=-eq-ok (add_tenant parse_duration idx u) (λ x. add_tenants parse_duration x us) e in
      add_tenants-keeps mid t us idx' rest (add_tenant-keeps idx t u mid first i)

  -- An entry of the index was there before or is a listed tenant.
  add_tenants-listed :
      (idx : Tenants) (list : List Tenant) (idx' : Tenants) (k : Text) (v : Tenant)
      → add_tenants parse_duration idx list ≡ ok idx'
      → lookup k idx' ≡ some v
      → (lookup k idx ≡ some v) ⊎ ((t : Tenant) × In t list × (t.cluster_id ≡ k) × SameGuards t v)
  unfolding add_tenants
  add_tenants-listed idx [] idx' k v e found = inl (ground arith)
  add_tenants-listed idx (u ∷ us) idx' k v e found =
      let (mid, first, rest) =
        >>=-eq-ok (add_tenant parse_duration idx u) (λ x. add_tenants parse_duration x us) e in
      let a = add_tenant-Added idx u mid first in
      elim (add_tenants-listed mid us idx' k v rest found) [
        | inr (t, listed, named, same) ↦ inr (t, inr listed, named, same)
        | inl before ↦ elim (Bool-cases (text_eq a.entry.cluster_id k)) [
          | inl hit ↦
              let here : a.entry ≡ v =
                ground (arith, lookup-insert a.entry.cluster_id k a.entry idx, a.result) in
              inr (
                u,
                inl refl,
                sym a.same.cluster ∙ (text_eq_iff a.entry.cluster_id k).0 hit,
                subst (SameGuards u) here a.same,
              )
          | inr miss ↦
              inl (ground (arith, lookup-insert a.entry.cluster_id k a.entry idx, a.result))
        ]
      ]

  pub add_tenants-All :
      (idx : Tenants) (list : List Tenant) (idx' : Tenants)
      → add_tenants parse_duration idx list ≡ ok idx'
      → All (Indexed idx') list
  unfolding add_tenants
  add_tenants-All idx [] idx' e = tt
  add_tenants-All idx (u ∷ us) idx' e =
      let (mid, first, rest) =
        >>=-eq-ok (add_tenant parse_duration idx u) (λ x. add_tenants parse_duration x us) e in
      (
        add_tenants-keeps mid u us idx' rest (add_tenant-Indexed idx u mid first),
        add_tenants-All mid us idx' rest,
      )

  -- Where the index is built, every listed tenant is found under its cluster with its tenant id,
  -- token, expiry and revocation as listed, and whatever is found is a listed tenant.
  pub new_tenants-exact :
      (list : List Tenant) (idx : Tenants) (k : Text) (v : Tenant)
      → new_tenants parse_duration list ≡ ok idx
      → lookup k idx ≡ some v
      → All (Indexed idx) list × ((t : Tenant) × In t list × (t.cluster_id ≡ k) × SameGuards t v)
  unfolding new_tenants
  new_tenants-exact list idx k v e found = (
    add_tenants-All [] list idx e,
    elim (add_tenants-listed [] list idx k v e found) [
      | inl before ↦ absurd (unfold lookup in ground arith)
      | inr listed ↦ listed
    ],
  )
