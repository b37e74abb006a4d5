-- ===== src/History/Recorded.antt =====
-- An incident that was recorded is read back under the identifier of its alert.
use muthur.Prelude.{ℕ, ◌+◌, ◌≤◌, Text, List, Bool, Option, some, ok, ◌≡◌, refl, sym, ap, ◌∙◌, All}
use muthur.Alert.{AlertPayload}
use muthur.AlertKey.{id}
use muthur.Evaluator.{Analysis}
use muthur.History.{Json, Record, history_key, record_of, record_incident, get}
use muthur.Store.{Store}
use muthur.Store.Kept.{get-run-set}
use muthur.Store.Laws.{StoreLaws}
use muthur.Store.Trace.{Op, Avoids, run}

module _ {S : Type 0} (st : Store S) {view : ℕ → Text → S → Option Text} (laws : StoreLaws st view)
    (sha256_hex : Text → Text) (json : Json) (ttl : ℕ) where
  record_incident-written :
      (now : ℕ) (rep : AlertPayload) (a : Option Analysis) (alerts : List (Bool × AlertPayload))
      (raw : Text) (s : S)
      → json.marshal (record_of st sha256_hex json ttl now rep a alerts) ≡ some raw
      → record_incident st sha256_hex json ttl now rep a alerts s
        ≡ (st.set now (history_key st sha256_hex json ttl (id sha256_hex rep)) raw ttl s).1
  unfolding record_incident record_of
  record_incident-written now rep a alerts raw s e = rw e refl

  get-read :
      (later : ℕ) (rid raw : Text) (s : S) (r : Record)
      → st.get later (history_key st sha256_hex json ttl rid) s ≡ ok (some raw)
      → json.unmarshal raw ≡ some r
      → get st sha256_hex json ttl later rid s ≡ ok (some r)
  unfolding get
  get-read later rid raw s r found back = rw (found, back) refl

  -- An incident that was recorded is read back, until it expires, under the identifier of its
  -- representative, whatever is written under other keys in between, if it is stored, the store
  -- answers and JSON gives the record back.
  pub get-record_incident :
      (now later : ℕ) (rep : AlertPayload) (a : Option Analysis)
      (alerts : List (Bool × AlertPayload)) (raw : Text) (s : S) (ops : List Op) (o : Option Text)
      → json.marshal (record_of st sha256_hex json ttl now rep a alerts) ≡ some raw
      → json.unmarshal raw ≡ some (record_of st sha256_hex json ttl now rep a alerts)
      → (st.set now (history_key st sha256_hex json ttl (id sha256_hex rep)) raw ttl s).0 ≡ ok tt
      → All (Avoids (history_key st sha256_hex json ttl (id sha256_hex rep))) ops
      → now ≤ later
      → later ≤ now + ttl
      → st.get later
          (history_key st sha256_hex json ttl (id sha256_hex rep))
          (run st ops (record_incident st sha256_hex json ttl now rep a alerts s))
        ≡ ok o
      → get st sha256_hex json ttl later
          (id sha256_hex rep)
          (run st ops (record_incident st sha256_hex json ttl now rep a alerts s))
        ≡ ok (some (record_of st sha256_hex json ttl now rep a alerts))
  get-record_incident now later rep a alerts raw s ops o marshalled back stored avoid lo hi
        answered =
      let k = history_key st sha256_hex json ttl (id sha256_hex rep) in
      let st' = run st ops (record_incident st sha256_hex json ttl now rep a alerts s) in
      let found : o ≡ some raw =
        get-run-set st laws k raw ttl now later s ops o stored avoid lo hi (
          ap (λ t. st.get later k (run st ops t))
            (sym (record_incident-written now rep a alerts raw s marshalled))
          ∙ answered) in
      get-read later (id sha256_hex rep) raw st' _ (answered ∙ ap ok found) back
