-- ===== src/Tests/Memories.antt =====
-- Runs of feedback and history over the in-process store.
use muthur.AlertKey.Injective.{Lacks}
use muthur.Prelude.{
  Text, text_eq, drop, ap, IsUnreserved, ◌==◌, ℕ, ◌+◌, ◌≤◌, codes, List, [], ◌∷◌, ◌++◌, true, none,
  some, ok, ◌≡◌, refl, arith, ltb, if◌then◌else◌, All, In, inl, inr, Bool-cases, pos,
}
use muthur.AlertKey.{id}
use muthur.Feedback.{
  Lib, Manager, PendingEntry, VerdictEntry, pending_key, verdict_prefix, record_feedback, examples,
  links_enabled,
}
use muthur.Feedback.Clicks.{Resolves, ReadsQuery, address, serve_http-record_feedback}
use muthur.Feedback.Recent.{Recent, Newest, SortLaws, examples-Recent}
use muthur.History
use muthur.History.{record_of, record_incident, history_key}
use muthur.History.Recorded.{get-record_incident}
use muthur.Store.Memory.{Memory, empty, get, set, expiry, expired, list_by_prefix}
use muthur.Store.Memory.Backend.{memory, memory_laws}
use muthur.Store.Trace.{run}
use muthur.Tests.Caching.{sample}
use muthur.Tests.Data.{alert, same_text, hundred}

abbrev pending : PendingEntry
pending = record {
  cluster_id = codes "c1";
  alert_name = codes "Crash";
  namespace = codes "ns";
  analysis = some sample;
}

abbrev verdict : VerdictEntry
verdict = record { alert_name = codes "Crash"; verdict = codes "useful"; analysis = none; ts = 7 }

abbrev placed : VerdictEntry → List VerdictEntry → List VerdictEntry
placed e [] = e ∷ []
placed e (f ∷ l) = let later = placed e l in if ltb e.ts f.ts then f ∷ later else e ∷ f ∷ l

-- Stands for `sort.Slice`.
abbrev sorted : List VerdictEntry → List VerdictEntry
sorted [] = []
sorted (e ∷ l) = placed e (sorted l)

abbrev lib : Lib
lib = record {
  marshal_pending = λ e. some (codes "p");
  unmarshal_pending = λ t. some pending;
  marshal_verdict = λ e. some (codes "v");
  unmarshal_verdict = λ t. some verdict;
  newest_first = sorted;
}

abbrev manager : Manager
manager = record {
  public_url = codes "u";
  pending_ttl = hundred;
  verdict_ttl = hundred;
  few_shot = 3;
}

abbrev hashed : Text → Text
hashed t = codes "0123456789abcdef"

abbrev after_record : Memory
after_record = (record_feedback memory hashed lib manager hundred alert (some sample) empty).1

found :
    memory.get (hundred + 5) (pending_key hashed (id hashed alert)) after_record
    ≡ ok (some (codes "p"))
unfolding memory record_feedback get set expiry expired
found = refl

-- Stands for `URL.Query().Get`: the identifier lies between the marks, and the verdict behind the
-- second one.
abbrev until_mark : Text → Text
until_mark [] = []
until_mark (c ∷ t) = let rest = until_mark t in if c == b'&' then [] else c ∷ rest

abbrev behind : ℕ → Text → Text
behind mark [] = []
behind mark (c ∷ t) = let rest = behind mark t in if c == mark then t else rest

abbrev query : Text → Text → Text
query link name =
    if text_eq name (codes "id")
    then until_mark (drop 3 (behind b'?' link))
    else drop 8 (behind b'&' (behind b'?' link))

behind-append : (mark : ℕ) (u t : Text) → Lacks mark u → behind mark (u ++ t) ≡ behind mark t
behind-append mark [] t h = refl
behind-append mark (c ∷ u) t h = ground (arith, h.0, behind-append mark u t h.1)

until_mark-append : (u t : Text) → Lacks b'&' u → until_mark (u ++ (b'&' ∷ t)) ≡ u
until_mark-append [] t h = refl
until_mark-append (c ∷ u) t h = ground (arith, h.0, until_mark-append u t h.1)

IsUnreserved-Lacks : (t : Text) → IsUnreserved t → Lacks b'&' t
IsUnreserved-Lacks [] h = tt
IsUnreserved-Lacks (c ∷ t) h = ((λ e. ground (arith, h.0, e)), IsUnreserved-Lacks t h.1)

query-reads : ReadsQuery query
unfolding text_eq
query-reads u fid verdict mark hash plain v =
    let tail = fid ++ (codes "&verdict=" ++ verdict) in
    let apart = IsUnreserved-Lacks fid plain in
    let asked : behind b'?' (address u fid verdict) ≡ codes "id=" ++ tail =
      behind-append b'?' u (codes "/feedback?id=" ++ tail) mark in
    (
      rw asked (until_mark-append fid (codes "verdict=" ++ verdict) apart),
      rw asked (ap (λ t. drop 8 t) (behind-append b'&' fid (codes "&verdict=" ++ verdict) apart)),
    )

recorded : (record_feedback memory hashed lib manager hundred alert (some sample) empty).0 ≡ (
  codes "u/feedback?id=0123456789abcdef&verdict=useful",
  codes "u/feedback?id=0123456789abcdef&verdict=wrong",
)
unfolding record_feedback memory
recorded = refl

serve_http-record_feedback_example :
    Resolves memory hashed lib manager query
      (hundred + 5)
      alert
      (codes "useful")
      (codes "v")
      after_record
      (record_feedback memory hashed lib manager hundred alert (some sample) empty).0.0
    × Resolves memory hashed lib manager query
        (hundred + 5)
        alert
        (codes "wrong")
        (codes "v")
        after_record
        (record_feedback memory hashed lib manager hundred alert (some sample) empty).0.1
unfolding run
serve_http-record_feedback_example =
    serve_http-record_feedback memory memory_laws hashed lib manager query hundred (hundred + 5)
      alert sample (codes "p") (codes "v") (codes "v") empty [] (some (codes "p")) query-reads
      ((λ e. cc), tt) ((λ e. cc), tt) (unfold id in plain) (unfold id in refl)
      (unfold links_enabled in refl) refl refl refl refl (unfold memory in refl) tt (omega arith)
      (omega arith) found
  where
    plain : IsUnreserved (codes "0123456789abcdef")
    plain = (
      refl,
      (
        refl,
        (
          refl,
          (
            refl,
            (
              refl,
              (
                refl,
                (refl, (refl, (refl, (refl, (refl, (refl, (refl, (refl, (refl, (refl, tt)))))))))),
              ),
            ),
          ),
        ),
      ),
    )

placed-All :
    (P : VerdictEntry → Type 0) (e : VerdictEntry) (l : List VerdictEntry)
    → P e
    → All P l
    → All P (placed e l)
placed-All P e [] p h = (p, tt)
placed-All P e (f ∷ l) p h = elim (Bool-cases (ltb e.ts f.ts)) [
  | inl older ↦ rw older (h.0, placed-All P e l p h.1)
  | inr newer ↦ rw newer (p, h)
]

older_still :
    (l : List VerdictEntry) (a b : ℕ) → a ≤ b → All (λ f. f.ts ≤ a) l → All (λ f. f.ts ≤ b) l
older_still [] a b le h = tt
older_still (f ∷ l) a b le h = (omega (arith, le, h.0), older_still l a b le h.1)

placed-Newest : (e : VerdictEntry) (l : List VerdictEntry) → Newest l → Newest (placed e l)
placed-Newest e [] h = (tt, tt)
placed-Newest e (f ∷ l) h = elim (Bool-cases (ltb e.ts f.ts)) [
  | inl older ↦
      rw older
        (placed-All (λ g. g.ts ≤ f.ts) e l (ground (arith, older)) h.0, placed-Newest e l h.1)
  | inr newer ↦
      let le : f.ts ≤ e.ts = ground (arith, newer) in
      rw newer ((le, older_still l f.ts e.ts le h.0), h)
]

In-of_placed : (e g : VerdictEntry) (l : List VerdictEntry) → In g (placed e l) → In g (e ∷ l)
In-of_placed e g [] h = h
In-of_placed e g (f ∷ l) h = elim (Bool-cases (ltb e.ts f.ts)) [
  | inl older ↦ elim (rw older at h) [
    | inl first ↦ inr (inl first)
    | inr rest ↦ elim (In-of_placed e g l rest) [
      | inl same ↦ inl same
      | inr later ↦ inr (inr later)
    ]
  ]
  | inr newer ↦ rw newer at h
]

In-placed : (e g : VerdictEntry) (l : List VerdictEntry) → In g (e ∷ l) → In g (placed e l)
In-placed e g [] h = h
In-placed e g (f ∷ l) h = elim (Bool-cases (ltb e.ts f.ts)) [
  | inr newer ↦ rw newer h
  | inl older ↦ rw older (elim h [
    | inl same ↦ inr (In-placed e g l (inl same))
    | inr (inl first) ↦ inl first
    | inr (inr later) ↦ inr (In-placed e g l (inr later))
  ])
]

sorted-Newest : (l : List VerdictEntry) → Newest (sorted l)
sorted-Newest [] = tt
sorted-Newest (e ∷ l) = placed-Newest e (sorted l) (sorted-Newest l)

In-of_sorted : (l : List VerdictEntry) (e : VerdictEntry) → In e (sorted l) → In e l
In-of_sorted [] e h = h
In-of_sorted (f ∷ l) e h = elim (In-of_placed f e (sorted l) h) [
  | inl same ↦ inl same
  | inr later ↦ inr (In-of_sorted l e later)
]

In-sorted : (l : List VerdictEntry) (e : VerdictEntry) → In e l → In e (sorted l)
In-sorted [] e h = h
In-sorted (f ∷ l) e (inl same) = In-placed f e (sorted l) (inl same)
In-sorted (f ∷ l) e (inr later) = In-placed f e (sorted l) (inr (In-sorted l e later))

laws : SortLaws lib
laws = record { sorted = sorted-Newest; members = In-of_sorted; whole = In-sorted }

abbrev one_verdict : Memory
one_verdict = (codes "fb:verdict:Crash:k", record { val = codes "v"; expires_at = none }) ∷ []

stored : memory.list_by_prefix 0 (codes "fb:verdict:Crash:") one_verdict ≡ ok (codes "v" ∷ [])
unfolding memory list_by_prefix verdict_prefix expired
stored = refl

examples-Recent_example :
    Recent lib 3 (codes "v" ∷ []) (examples memory same_text lib manager 0 alert one_verdict)
examples-Recent_example =
    examples-Recent memory same_text lib manager 0 alert one_verdict (codes "v" ∷ []) laws stored

abbrev json : History.Json
json = record {
  marshal = λ r. some (codes "r");
  unmarshal = λ t. some (record {
    id = id same_text alert;
    cluster_id = codes "c1";
    alert_name = codes "Crash";
    namespace = codes "ns";
    severity = codes "warning";
    fired_at = pos 5;
    alert_count = 1;
    related_alerts = [];
    analysis = some sample;
    recorded_at = 100;
  });
}

abbrev after_incident : Memory
after_incident =
    record_incident memory same_text json hundred hundred alert (some sample) ((true, alert) ∷ [])
      empty

incident_found :
    memory.get
      (hundred + 5)
      (history_key memory same_text json hundred (id same_text alert))
      after_incident
    ≡ ok (some (codes "r"))
unfolding memory record_incident get set expiry expired
incident_found = refl

get-record_incident_example :
    History.get memory same_text json hundred (hundred + 5) (id same_text alert) after_incident
    ≡ ok (
        some (
          record_of memory same_text json hundred hundred alert (some sample) ((true, alert) ∷ [])))
unfolding run
get-record_incident_example =
    get-record_incident memory memory_laws same_text json hundred hundred (hundred + 5) alert
      (some sample) ((true, alert) ∷ []) (codes "r") empty [] (some (codes "r")) refl
      (unfold record_of in refl) (unfold memory in refl) tt (omega arith) (omega arith)
      incident_found
