-- ===== src/Auth/Replay/Single.antt =====
-- What an accepted request has passed, and why it is accepted once.
use muthur.Prelude.{
  ℕ, ◌+◌, ◌*◌, ◌≤◌, Text, List, [], ◌∷◌, true, false, Option, some, ok, ℤ, pos_part, neg_part,
  parse_int, length, ◌≡◌, ◌≢◌, refl, ap, ◌∙◌, arith, All, Option-cases, inl, inr, Result-cases,
  subst,
}
use muthur.Store.{Store}
use muthur.Store.Laws.{Lives-until, StoreLaws}
use muthur.Store.Trace.{Op, Spares, Since, end, run, run-Held, Held}
use muthur.Auth.Identity.{Identity, to_string}
use muthur.Auth.Replay.{
  ReplayGuard, new_replay_guard, second, outside_window, is_hex_string, min_nonce_hex_len,
  nonce_key, check_timestamp, check_nonce, claim_nonce, verify, then_nonce,
}

-- The request's second is at most the window away from `now`.
pub record Within (window now : ℕ) (ts : ℤ) : Type 0 where
  pub not_old : now + neg_part ts * second ≤ window + pos_part ts * second
  pub not_early : pos_part ts * second ≤ now + neg_part ts * second + window

-- What a nonce has to be.
pub record IsNonce (nonce : Text) : Type 0 where
  pub long : min_nonce_hex_len ≤ length nonce
  pub hex : is_hex_string nonce ≡ true

Within-of_outside :
    (window now : ℕ) (ts : ℤ) → outside_window window now ts ≡ false → Within window now ts
unfolding outside_window
Within-of_outside window now ts h = ground arith

outside_of_Within :
    (window now : ℕ) (ts : ℤ) → Within window now ts → outside_window window now ts ≡ false
unfolding outside_window
outside_of_Within window now ts h = ground arith

check_timestamp-ok :
    (g : ReplayGuard) (now : ℕ) (ts_str : Text) (ts : ℤ)
    → check_timestamp g now ts_str ≡ ok ts
    → (parse_int ts_str ≡ some ts) × Within g.window now ts
unfolding check_timestamp
check_timestamp-ok g now ts_str ts e = elim (Option-cases (parse_int ts_str)) [
  | inl none' ↦ absurd (ground arith)
  | inr (z, parsed) ↦
      let same : z ≡ ts = ground arith in
      (parsed ∙ ap some same, Within-of_outside g.window now ts (ground arith))
]

pub check_nonce-ok : (nonce : Text) → check_nonce nonce ≡ ok tt → IsNonce nonce
unfolding check_nonce
check_nonce-ok nonce e = record { long = ground arith; hex = ground arith }

module _ {S : Type 0} (st : Store S) (g : ReplayGuard) where
  -- What an accepted request went through.
  pub record Accepted (now : ℕ) (id : Identity) (ts_str nonce : Text) (s : S) : Type 0 where
    pub ts : ℤ
    pub parsed : parse_int ts_str ≡ some ts
    pub fresh : Within g.window now ts
    pub nonce_ok : IsNonce nonce
    pub won : (st.set_nx now (nonce_key g id nonce) (1 ∷ []) g.nonce_ttl s).0 ≡ ok true
    pub stored :
        (verify st g now (some id) ts_str nonce s).1
        ≡ (st.set_nx now (nonce_key g id nonce) (1 ∷ []) g.nonce_ttl s).1

  claim-ok :
      (now : ℕ) (id : Identity) (nonce : Text) (s : S)
      → (claim_nonce st g now id nonce s).0 ≡ ok tt
      → (st.set_nx now (nonce_key g id nonce) (1 ∷ []) g.nonce_ttl s).0 ≡ ok true
  unfolding claim_nonce
  claim-ok now id nonce s e = ground arith

  -- A request is accepted only with a timestamp inside the window, a nonce of 32 or more hex
  -- characters, and a nonce marker that was not yet taken.
  pub verify-Accepted :
      (now : ℕ) (id : Identity) (ts_str nonce : Text) (s : S)
      → (verify st g now (some id) ts_str nonce s).0 ≡ ok tt
      → Accepted now id ts_str nonce s
  unfolding verify
  verify-Accepted now id ts_str nonce s e = elim (Result-cases (check_timestamp g now ts_str)) [
    | inr (_, bad) ↦ absurd (ground arith)
    | inl (ts, timely) ↦ elim (Result-cases (check_nonce nonce)) [
      | inr (_, bad) ↦ absurd (ground arith)
      | inl (u, shaped) ↦
          let (parsed, fresh) = check_timestamp-ok g now ts_str ts timely in
          let claimed : (claim_nonce st g now id nonce s).0 ≡ ok tt = ground arith in
          record {
            ts = ts;
            parsed = parsed;
            fresh = fresh;
            nonce_ok = check_nonce-ok nonce shaped;
            won = claim-ok now id nonce s claimed;
            stored = rw (timely, shaped, then_nonce) (unfold claim_nonce in refl);
          }
    ]
  ]

parse_unique : (s : Text) (a b : ℤ) → parse_int s ≡ some a → parse_int s ≡ some b → a ≡ b
parse_unique s a b p q = cc

-- Both requests lie in the window of one second, so at most two windows apart.
Within-apart :
    (window now later : ℕ) (ts : ℤ)
    → Within window now ts
    → Within window later ts
    → later ≤ now + 2 * window
Within-apart window now later ts p q = omega arith

module _ {S : Type 0} (st : Store S) {view : ℕ → Text → S → Option Text} (laws : StoreLaws st view)
    (window : ℕ) (prefix : Text) where
  ttl_of_new :
      (new_replay_guard window prefix).nonce_ttl ≡ 2 * (new_replay_guard window prefix).window
  unfolding new_replay_guard
  ttl_of_new = ground arith

  Held-nonce :
      (now : ℕ) (k v : Text) (ttl : ℕ) (s : S)
      → (st.set_nx now k v ttl s).0 ≡ ok true
      → Held st view k now (now + ttl) (st.set_nx now k v ttl s).1
  Held-nonce now k v ttl s won t lo hi e =
      let stored : view t k (st.set_nx now k v ttl s).1 ≡ some v =
        laws.set_nx_stores now k v ttl s t won lo (Lives-until ttl now t hi) in
      cc

  -- A captured request is of no use: once it is accepted, the same timestamp and nonce are refused
  -- at every later instant for an identity that prints alike, whatever other calls spare the
  -- nonce's marker in between.
  pub verify_once :
      (id id' : Identity) (ts_str nonce : Text) (now later : ℕ) (s : S) (ops : List Op)
      → to_string id' ≡ to_string id
      → (verify st (new_replay_guard window prefix) now (some id) ts_str nonce s).0 ≡ ok tt
      → Since now ops
      → All (Spares (nonce_key (new_replay_guard window prefix) id nonce)) ops
      → end now ops ≤ later
      → (verify st (new_replay_guard window prefix) later (some id') ts_str nonce (
          run st ops (verify st (new_replay_guard window prefix) now (some id) ts_str nonce s).1)).0
        ≢ ok tt
  verify_once id id' ts_str nonce now later s ops same first since spares le second' =
      let g = new_replay_guard window prefix in
      let k = nonce_key g id nonce in
      let a = verify-Accepted st g now id ts_str nonce s first in
      let b = verify-Accepted st g later id' ts_str nonce _ second' in
      let within : Within g.window later a.ts =
        subst (Within g.window later) (parse_unique ts_str b.ts a.ts b.parsed a.parsed) b.fresh in
      let hi : later ≤ now + g.nonce_ttl =
        omega (arith, Within-apart g.window now later a.ts a.fresh within, ttl_of_new) in
      let held : Held st view k now (now + g.nonce_ttl)
          (verify st g now (some id) ts_str nonce s).1 =
        rw a.stored (Held-nonce now k (1 ∷ []) g.nonce_ttl s a.won) in
      let key_same : nonce_key g id' nonce ≡ k = (unfold nonce_key in rw same) in
      let won : (st.set_nx later k (1 ∷ []) g.nonce_ttl
            (run st ops (verify st g now (some id) ts_str nonce s).1)).0
          ≡ ok true =
        rw key_same at b.won in
      run-Held st laws k ops now (now + g.nonce_ttl) (verify st g now (some id) ts_str nonce s).1
        since spares held later le hi (laws.set_nx_fresh later k (1 ∷ []) g.nonce_ttl _ won)
