-- ===== src/Feedback/Clicks.antt =====
-- A link that was recorded resolves, and its verdict is stored.
use mathlib.Core.List.{append_assoc}
use muthur.AlertKey.Injective.{Lacks}
use muthur.Auth.Replay.{second}
use muthur.Prelude.{
  codes, take, text_eq, ◌/◌, IsUnreserved, ℕ, ◌+◌, ◌≤◌, Text, List, ◌++◌, true, false, Option, some,
  Result, ok, err, ◌≡◌, refl, sym, ap, ◌∙◌, All, is_empty, ◌||◌,
}
use muthur.Alert.{AlertPayload}
use muthur.AlertKey.{id}
use muthur.Evaluator.{Analysis}
use muthur.Feedback.{
  not_verdict, alert_hash, links, VerdictEntry, Lib, Manager, thanks, PendingEntry, links_enabled,
  pending_key, verdict_prefix, record_feedback, pending_of, linked, serve_http, verdict_of,
}
use muthur.LlmCache.{write_if_marshalled}
use muthur.Store.{Store, StoreError}
use muthur.Store.Kept.{get-run-set}
use muthur.Store.Laws.{StoreLaws}
use muthur.Store.Trace.{Op, Avoids, run}

-- The address of a click: the public one, the path, and two parameters.
abbrev pub address : Text → Text → Text → Text
address public_url fid verdict =
    public_url ++ (codes "/feedback?id=" ++ (fid ++ (codes "&verdict=" ++ verdict)))

-- What net/url documents of `URL.Query().Get`, for an address without a query or fragment of its own
-- and values that stand for themselves.
abbrev pub ReadsQuery : (Text → Text → Text) → Type 0
ReadsQuery query =
    (public_url fid verdict : Text)
    → Lacks b'?' public_url
    → Lacks b'#' public_url
    → IsUnreserved fid
    → IsUnreserved verdict
    → (query (address public_url fid verdict) (codes "id") ≡ fid)
      × (query (address public_url fid verdict) (codes "verdict") ≡ verdict)

useful_plain : IsUnreserved (codes "useful")
useful_plain = (refl, (refl, (refl, (refl, (refl, (refl, tt))))))

wrong_plain : IsUnreserved (codes "wrong")
wrong_plain = (refl, (refl, (refl, (refl, (refl, tt)))))

link_assoc :
    (u fid v : Text)
    → (u ++ (codes "/feedback?id=" ++ (fid ++ codes "&verdict="))) ++ v ≡ address u fid v
link_assoc u fid v =
    append_assoc u (codes "/feedback?id=" ++ (fid ++ codes "&verdict=")) v
    ∙ ap (λ t. u ++ (codes "/feedback?id=" ++ t)) (append_assoc fid (codes "&verdict=") v)

-- What is stored for a verdict on an alert.
abbrev pub entry_of : ℕ → AlertPayload → Analysis → Text → VerdictEntry
entry_of later p a verdict = record {
  alert_name = p.alert_name;
  verdict = verdict;
  analysis = some a;
  ts = later / second;
}

-- The key under which it is stored.
abbrev pub entry_key : (Text → Text) → AlertPayload → Text
entry_key sha256_hex p =
    (codes "fb:verdict:" ++ (take 12 (sha256_hex p.alert_name) ++ codes ":")) ++ id sha256_hex p

module _ {S : Type 0} (st : Store S) (sha256_hex : Text → Text) (lib : Lib) (m : Manager)
    (query : Text → Text → Text) where
  -- A click on a link gives thanks for the verdict on the alert, and stores the entry.
  abbrev pub Resolves : ℕ → AlertPayload → Text → Text → S → Text → Type 0
  Resolves later p verdict raw s link =
      serve_http st sha256_hex lib m later (query link (codes "id")) (query link (codes "verdict"))
        s
      ≡ (thanks verdict p.alert_name, (st.set later (entry_key sha256_hex p) raw m.verdict_ttl s).1)

module _ {S : Type 0} (st : Store S) {view : ℕ → Text → S → Option Text} (laws : StoreLaws st view)
    (sha256_hex : Text → Text) (lib : Lib) (m : Manager) (query : Text → Text → Text) where
  record_feedback-written :
      (now : ℕ) (p : AlertPayload) (a : Analysis) (raw : Text) (s : S)
      → links_enabled m ≡ true
      → lib.marshal_pending (pending_of st sha256_hex lib m p a) ≡ some raw
      → (st.set now (pending_key sha256_hex (id sha256_hex p)) raw m.pending_ttl s).0 ≡ ok tt
      → record_feedback st sha256_hex lib m now p (some a) s ≡ (
        links st sha256_hex lib m (id sha256_hex p),
        (st.set now (pending_key sha256_hex (id sha256_hex p)) raw m.pending_ttl s).1,
      )
  unfolding record_feedback
  record_feedback-written now p a raw s on marshalled stored = rw (on, marshalled) (either _ stored)
    where
      either :
          (r : Result StoreError (Unit {0}) × S)
          → r.0 ≡ ok tt
          → linked st sha256_hex lib m (id sha256_hex p) r
            ≡ (links st sha256_hex lib m (id sha256_hex p), r.1)
      either (err e, s') h = cc
      either (ok u, s') h = refl

  serve_http-resolved :
      (later : ℕ) (fid verdict raw : Text) (e : PendingEntry) (s : S)
      → (is_empty fid || not_verdict verdict) ≡ false
      → st.get later (pending_key sha256_hex fid) s ≡ ok (some raw)
      → lib.unmarshal_pending raw ≡ some e
      → serve_http st sha256_hex lib m later fid verdict s ≡ (
        thanks verdict e.alert_name,
        write_if_marshalled st later
            (verdict_prefix sha256_hex e.alert_name ++ fid)
            m.verdict_ttl
            (lib.marshal_verdict (verdict_of st sha256_hex lib m later verdict e))
            s,
      )
  unfolding serve_http
  serve_http-resolved later fid verdict raw e s valid found back = rw (valid, found, back) refl

  Resolves-link :
      (later : ℕ) (p : AlertPayload) (a : Analysis) (pending verdict raw link : Text) (s : S)
      → (is_empty (id sha256_hex p) || not_verdict verdict) ≡ false
      → query link (codes "id") ≡ id sha256_hex p
      → query link (codes "verdict") ≡ verdict
      → st.get later (pending_key sha256_hex (id sha256_hex p)) s ≡ ok (some pending)
      → lib.unmarshal_pending pending ≡ some (pending_of st sha256_hex lib m p a)
      → lib.marshal_verdict (entry_of later p a verdict) ≡ some raw
      → Resolves st sha256_hex lib m query later p verdict raw s link
  unfolding verdict_prefix alert_hash
  Resolves-link later p a pending verdict raw link s valid named chosen found back marshalled =
      rw (named, chosen)
        (serve_http-resolved later (id sha256_hex p) verdict pending
            (pending_of st sha256_hex lib m p a) s valid found back
          ∙ rw marshalled refl)

  -- The links handed out for an alert are good until its pending entry expires, whatever is written
  -- under other keys in between: a click on the first gives thanks and stores the verdict that the
  -- analysis was useful, one on the second that it was wrong, under the hash of the alert's name
  -- and its identifier; if the pending entry is stored, the store answers, JSON gives the entry
  -- back and writes the verdict, the public address has no query or fragment, the identifier is not
  -- empty and stands for itself in a URL, and net/url reads a query as it documents.
  pub serve_http-record_feedback :
      (now later : ℕ) (p : AlertPayload) (a : Analysis) (raw useful wrong : Text) (s : S)
      (ops : List Op) (o : Option Text)
      → ReadsQuery query
      → Lacks b'?' m.public_url
      → Lacks b'#' m.public_url
      → IsUnreserved (id sha256_hex p)
      → is_empty (id sha256_hex p) ≡ false
      → links_enabled m ≡ true
      → lib.marshal_pending (pending_of st sha256_hex lib m p a) ≡ some raw
      → lib.unmarshal_pending raw ≡ some (pending_of st sha256_hex lib m p a)
      → lib.marshal_verdict (entry_of later p a (codes "useful")) ≡ some useful
      → lib.marshal_verdict (entry_of later p a (codes "wrong")) ≡ some wrong
      → (st.set now (pending_key sha256_hex (id sha256_hex p)) raw m.pending_ttl s).0 ≡ ok tt
      → All (Avoids (pending_key sha256_hex (id sha256_hex p))) ops
      → now ≤ later
      → later ≤ now + m.pending_ttl
      → st.get later
          (pending_key sha256_hex (id sha256_hex p))
          (run st ops (record_feedback st sha256_hex lib m now p (some a) s).1)
        ≡ ok o
      → Resolves st sha256_hex lib m query later p
          (codes "useful")
          useful
          (run st ops (record_feedback st sha256_hex lib m now p (some a) s).1)
          (record_feedback st sha256_hex lib m now p (some a) s).0.0
        × Resolves st sha256_hex lib m query later p
            (codes "wrong")
            wrong
            (run st ops (record_feedback st sha256_hex lib m now p (some a) s).1)
            (record_feedback st sha256_hex lib m now p (some a) s).0.1
  unfolding links not_verdict text_eq
  serve_http-record_feedback now later p a raw useful wrong s ops o reads mark hash plain named on
        marshalled back is_useful is_wrong stored avoid lo hi answered =
      let k = pending_key sha256_hex (id sha256_hex p) in
      let fid = id sha256_hex p in
      let end = run st ops (record_feedback st sha256_hex lib m now p (some a) s).1 in
      let written = record_feedback-written now p a raw s on marshalled stored in
      let found : o ≡ some raw =
        get-run-set st laws k raw m.pending_ttl now later s ops o stored avoid lo hi
          (ap (λ t. st.get later k (run st ops t.1)) (sym written) ∙ answered) in
      let here = answered ∙ ap ok found in
      let up = reads m.public_url fid (codes "useful") mark hash plain useful_plain in
      let down = reads m.public_url fid (codes "wrong") mark hash plain wrong_plain in
      let up_link = ap (λ t. t.0.0) written ∙ link_assoc m.public_url fid (codes "useful") in
      let down_link = ap (λ t. t.0.1) written ∙ link_assoc m.public_url fid (codes "wrong") in
      (
        Resolves-link later p a raw (codes "useful") useful _ end (rw named refl)
            (ap (λ l. query l (codes "id")) up_link ∙ up.0)
            (ap (λ l. query l (codes "verdict")) up_link ∙ up.1) here back is_useful,
        Resolves-link later p a raw (codes "wrong") wrong _ end (rw named refl)
            (ap (λ l. query l (codes "id")) down_link ∙ down.0)
            (ap (λ l. query l (codes "verdict")) down_link ∙ down.1) here back is_wrong,
      )
