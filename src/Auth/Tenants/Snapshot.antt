-- ===== src/Auth/Tenants/Snapshot.antt =====
-- Reloads: a failed one keeps the tenants that were served before.
use muthur.Auth.Tenants.Index.{Indexed, add_tenants-All}
use muthur.Prelude.{
  ℕ, Text, List, [], ◌∷◌, true, Option, some, ok, ◌≡◌, refl, Option-cases, Result-cases, Bool-cases,
  inl, inr, ◌⊎◌, ◌<◌, sym, In, All, subst, ◌∙◌, lt→ltb,
}
use muthur.Auth.Tenants.{
  Tenant, Tenants, FileView, Cached, current, new_tenants, reload, poll, up_to_date, decode,
}

module _ (parse_duration : Text → Option ℕ) (unmarshal : Text → Option (List Tenant)) where
  -- The tenants that the file holds now, correctly decoded and indexed.
  pub record Loaded (f : FileView) (t : Tenants) : Type 0 where
    pub content : Text
    pub list : List Tenant
    pub read : f.content ≡ some content
    pub decoded : unmarshal content ≡ some list
    pub built : new_tenants parse_duration list ≡ ok t

  decode-cases :
      (f : FileView) (mtime : ℕ) (old : Option Cached)
      → ((decode parse_duration unmarshal old mtime f.content).1 ≡ old)
        ⊎ ((t : Tenants) × (decode parse_duration unmarshal old mtime f.content
              ≡ (ok true, some (record { tenants = t; mtime = mtime })))
            × Loaded f t)
  decode-cases f mtime old = elim (Option-cases f.content) [
    | inl gone ↦ inl (rw (gone, decode) refl)
    | inr (content, read) ↦ elim (Option-cases (unmarshal content)) [
      | inl bad ↦ inl (rw (read, bad, decode) refl)
      | inr (list, decoded) ↦ elim (Result-cases (new_tenants parse_duration list)) [
        | inr (e, refused) ↦ inl (rw (read, decoded, refused, decode) refl)
        | inl (t, built) ↦ inr (
          t,
          rw (read, decoded, built, decode) refl,
          record { content = content; list = list; read = read; decoded = decoded; built = built },
        )
      ]
    ]
  ]

  reload-cases :
      (f : FileView) (old : Option Cached)
      → ((reload parse_duration unmarshal f old).1 ≡ old)
        ⊎ ((t : Tenants) × (current (reload parse_duration unmarshal f old).1 ≡ some t)
            × Loaded f t)
  unfolding reload
  reload-cases f old = elim (Option-cases f.mtime) [
    | inl gone ↦ inl (rw (gone, reload) refl)
    | inr (mtime, stat) ↦ elim (Bool-cases (up_to_date old mtime)) [
      | inl fresh ↦ inl (rw (stat, fresh, reload) refl)
      | inr stale ↦ elim (decode-cases f mtime old) [
        | inl kept ↦ inl (rw (stat, stale, reload) kept)
        | inr (t, loaded, from) ↦ inr (t, rw (stat, stale, loaded, reload) refl, from)
      ]
    ]
  ]

  -- The tenants served are those that were served before, or those of one of the polled files.
  abbrev pub From : List FileView → Tenants → Tenants → Type 0
  From fs old t = (t ≡ old) ⊎ ((f : FileView) × In f fs × Loaded f t)

  From-cons :
      (f : FileView) (fs : List FileView) (old mid t : Tenants)
      → (mid ≡ old) ⊎ Loaded f mid
      → From fs mid t
      → From (f ∷ fs) old t
  From-cons f fs old mid t (inl e) (inl e') = inl (e' ∙ e)
  From-cons f fs old mid t (inr l) (inl e') = inr (f, inl refl, subst (Loaded f) (sym e') l)
  From-cons f fs old mid t h (inr (g, i, l)) = inr (g, inr i, l)

  -- Once tenants are loaded they are never lost: whatever the polls find, the tenants served are
  -- the first ones or those of a polled file that was read, decoded and indexed whole.
  pub poll-serves :
      (fs : List FileView) (c : Option Cached) (old : Tenants)
      → current c ≡ some old
      → (t : Tenants) × (current (poll parse_duration unmarshal fs c) ≡ some t) × From fs old t
  unfolding poll
  poll-serves [] c old e = (old, e, inl refl)
  poll-serves (f ∷ fs) c old e = elim (reload-cases f c) [
    | inl kept ↦
        let (t, served, from) =
          poll-serves fs (reload parse_duration unmarshal f c).1 old (rw kept e) in
        (t, served, From-cons f fs old old t (inl refl) from)
    | inr (mid, now, loaded) ↦
        let (t, served, from) = poll-serves fs (reload parse_duration unmarshal f c).1 mid now in
        (t, served, From-cons f fs old mid t (inr loaded) from)
  ]

  -- A file that is newer and that reads as a valid list is served after one poll, with every listed
  -- tenant found as listed.
  pub reload-newer :
      (f : FileView) (c : Cached) (mtime : ℕ) (content : Text) (list : List Tenant) (idx : Tenants)
      → f.mtime ≡ some mtime
      → c.mtime < mtime
      → f.content ≡ some content
      → unmarshal content ≡ some list
      → new_tenants parse_duration list ≡ ok idx
      → (current (reload parse_duration unmarshal f (some c)).1 ≡ some idx) × All (Indexed idx) list
  unfolding reload new_tenants
  reload-newer f c mtime content list idx stat newer read decoded built = (
    rw (stat, lt→ltb c.mtime mtime newer, read, decoded, built, reload, decode) refl,
    add_tenants-All parse_duration [] list idx built,
  )
