-- ===== src/Evaluator/OpenAi/Requests.antt =====
-- How often the endpoint is asked, and for which format.
use mathlib.Core.List.{append_assoc, append-nil}
use muthur.Prelude.{
  ℕ, zero, suc, ◌+◌, ◌*◌, ◌≤◌, Text, List, [], ◌∷◌, ◌++◌, Bool, true, false, not, ◌||◌, ◌&&◌,
  Result, ok, err, All, length, length-append, ◌≡◌, refl, sym, ap, subst, ◌∙◌, ◌⊎◌, inl, inr, arith,
  Bool-cases,
}
use muthur.Evaluator.{
  Prompt, run, run_from, attempt, checked, decode_and_validate, Analysis, RunError, corrected,
}
use muthur.Evaluator.OpenAi.{
  OpenAi, SchemaMode, mode_schema, mode_json_object, mode_auto, mode_for, structured,
  structured_for, downgrade, is_auto, ChatRequest, ChatResponse, json_object, json_schema,
  response_format, Answer, answered, failed, chat_request, do_call, after_failure, settled,
  complete_from, complete, effective_mode, read_reply,
}

abbrev pub AsksSchema : ChatRequest → Type 0
AsksSchema q = q.format ≡ json_schema

abbrev pub AsksObject : ChatRequest → Type 0
AsksObject q = q.format ≡ json_object

-- The schema first, and once the schema is given up it is not asked for again.
abbrev pub SchemaFirst : List ChatRequest → Type 0
SchemaFirst [] = Unit
SchemaFirst (q ∷ qs) = AsksSchema q × (SchemaFirst qs ⊎ All AsksObject qs)

-- The formats that a mode asks for, by whether it was downgraded at the start.
abbrev pub Formats : SchemaMode → Bool → List ChatRequest → Type 0
Formats mode_schema downgraded qs = All AsksSchema qs
Formats mode_json_object downgraded qs = All AsksObject qs
Formats mode_auto true qs = All AsksObject qs
Formats mode_auto false qs = SchemaFirst qs

Formats-cons :
    (mode : SchemaMode) (d d' : Bool) (q : ChatRequest) (qs : List ChatRequest)
    → q.format ≡ response_format (mode_for mode d)
    → (not d || d') ≡ true
    → Formats mode d' qs
    → Formats mode d (q ∷ qs)
unfolding response_format
Formats-cons mode_schema d d' q qs f k h = (f, h)
Formats-cons mode_json_object d d' q qs f k h = (f, h)
Formats-cons mode_auto true true q qs f k h = (f, h)
Formats-cons mode_auto true false q qs f k h = cc
Formats-cons mode_auto false true q qs f k h = (f, inr h)
Formats-cons mode_auto false false q qs f k h = (f, inl h)

Formats-nil : (mode : SchemaMode) (d : Bool) → Formats mode d []
Formats-nil mode_schema d = tt
Formats-nil mode_json_object d = tt
Formats-nil mode_auto true = tt
Formats-nil mode_auto false = tt

-- The request of an attempt is for the schema, or the provider does not claim it ever after.
honest_step :
    (mode : SchemaMode) (d d' : Bool) (q : ChatRequest)
    → q.format ≡ response_format (mode_for mode d)
    → (not d || d') ≡ true
    → AsksSchema q ⊎ (structured_for mode d' ≡ false)
unfolding response_format
honest_step mode_schema d d' q f k = inl f
honest_step mode_json_object d d' q f k = inr refl
honest_step mode_auto true true q f k = inr refl
honest_step mode_auto true false q f k = cc
honest_step mode_auto false d' q f k = inl f

after_failure-mode : (unsupported : Bool) (p : OpenAi) → (after_failure unsupported p).mode ≡ p.mode
unfolding after_failure downgrade
after_failure-mode unsupported p = elim (Bool-cases (unsupported && is_auto p.mode)) [
  | inl given_up ↦ elim (Bool-cases (is_auto p.mode && not p.downgraded)) [
    | inl now ↦ rw (given_up, now) refl
    | inr before ↦ rw (given_up, before) refl
  ]
  | inr kept ↦ rw kept refl
]

after_failure-kept :
    (unsupported : Bool) (p : OpenAi)
    → (not p.downgraded || (after_failure unsupported p).downgraded) ≡ true
unfolding after_failure downgrade
after_failure-kept unsupported p = elim (Bool-cases (unsupported && is_auto p.mode)) [
  | inl given_up ↦ elim (Bool-cases (is_auto p.mode && not p.downgraded)) [
    | inl now ↦ rw (given_up, now) (ground arith)
    | inr before ↦ rw (given_up, before) (ground arith)
  ]
  | inr kept ↦ rw kept (ground arith)
]

-- What an endpoint is asked is put down, in order.
abbrev pub noted :
    {W : Type 0}
    → (ChatRequest → W → Result Text (ℕ × Text) × W)
    → ChatRequest
    → W × List ChatRequest
    → Result Text (ℕ × Text) × (W × List ChatRequest)
noted send q (w, log) = let (reply, w') = send q w in (reply, (w', log ++ (q ∷ [])))

module _ {W : Type 0} (decode : Text → Result Text ChatResponse)
    (send : ChatRequest → W → Result Text (ℕ × Text) × W) where
  -- What a call, of at most n attempts, has asked for.
  pub record Asked (n : ℕ) (p : OpenAi) (log : List ChatRequest)
      (r : Result Text Text × (OpenAi × (W × List ChatRequest))) : Type 0 where
    pub requests : List ChatRequest
    pub in_log : r.1.1.1 ≡ log ++ requests
    pub few : length requests ≤ n
    pub formats : Formats p.mode p.downgraded requests
    pub same_mode : r.1.0.mode ≡ p.mode
    pub kept : (not p.downgraded || r.1.0.downgraded) ≡ true
    pub honest : All AsksSchema requests ⊎ (structured r.1.0 ≡ false)

  settled-Asked :
      (n : ℕ) (p : OpenAi) (log : List ChatRequest) (q : ChatRequest) (a : Answer) (w : W)
      (again : Text
        → OpenAi
        → W × List ChatRequest
        → Result Text Text × (OpenAi × (W × List ChatRequest)))
      → q.format ≡ response_format (effective_mode p)
      → ((e : Text) (p' : OpenAi) (v : W) (l : List ChatRequest) → Asked n p' l (again e p' (v, l)))
      → Asked (suc n) p log (settled decode (noted send) again p (a, (w, log ++ (q ∷ []))))
  unfolding effective_mode structured
  settled-Asked n p log q (answered raw) w again f h = record {
    requests = q ∷ [];
    in_log = refl;
    few = omega arith;
    formats =
        Formats-cons p.mode p.downgraded p.downgraded q [] f (ground arith)
          (Formats-nil p.mode p.downgraded);
    same_mode = refl;
    kept = ground arith;
    honest = elim (honest_step p.mode p.downgraded p.downgraded q f (ground arith)) [
      | inl schema ↦ inl (schema, tt)
      | inr honest ↦ inr honest
    ];
  }
  settled-Asked n p log q (failed e unsupported) w again f h =
      let p' = after_failure unsupported p in
      let rest = h e p' w (log ++ (q ∷ [])) in
      let same = after_failure-mode unsupported p in
      let kept = after_failure-kept unsupported p in
      let last = again e p' (w, log ++ (q ∷ [])) in
      let later : (not p.downgraded || last.1.0.downgraded) ≡ true =
        ground (arith, kept, rest.kept) in
      let mode : last.1.0.mode ≡ p.mode = rest.same_mode ∙ same in
      record {
        requests = q ∷ rest.requests;
        in_log = rest.in_log ∙ append_assoc log (q ∷ []) rest.requests;
        few = omega (arith, rest.few);
        formats =
            Formats-cons p.mode p.downgraded p'.downgraded q rest.requests f kept
              (subst (λ m. Formats m p'.downgraded rest.requests) same rest.formats);
        same_mode = mode;
        kept = later;
        honest = elim rest.honest [
          | inr unclaimed ↦ inr unclaimed
          | inl schemas ↦ elim (honest_step p.mode p.downgraded last.1.0.downgraded q f later) [
            | inl schema ↦ inl (schema, schemas)
            | inr unclaimed ↦ inr (ap (λ m. structured_for m last.1.0.downgraded) mode ∙ unclaimed)
          ]
        ];
      }

  complete_from-Asked :
      (n : ℕ) (last : Text) (prompt : Prompt) (p : OpenAi) (w : W) (log : List ChatRequest)
      → Asked n p log (complete_from decode (noted send) n last prompt p (w, log))
  unfolding complete_from
  complete_from-Asked zero last prompt p w log = record {
    requests = [];
    in_log = sym (append-nil log);
    few = omega arith;
    formats = Formats-nil p.mode p.downgraded;
    same_mode = refl;
    kept = ground arith;
    honest = inl tt;
  }
  complete_from-Asked (suc n) last prompt p w log =
      let q = chat_request p prompt (effective_mode p) in
      let (reply, w') = send q w in
      unfold do_call in
      settled-Asked n p log q (read_reply decode reply) w'
        (λ e u v. complete_from decode (noted send) n e prompt u v) (unfold chat_request in refl)
        (λ e p' v l. complete_from-Asked n e prompt p' v l)

  -- A call ends after at most three requests: all for the schema in schema mode, none for it in
  -- JSON-object mode, and in auto mode the schema first and, once it is given up, never again; the
  -- mode stays, a downgrade is never taken back, and a provider that still reports structured
  -- output has asked for nothing but the schema.
  pub complete-Asked :
      (prompt : Prompt) (p : OpenAi) (w : W) (log : List ChatRequest)
      → Asked 3 p log (complete decode (noted send) prompt (p, (w, log)))
  unfolding complete
  complete-Asked prompt p w log = complete_from-Asked 3 [] prompt p w log

module _ {W : Type 0} (quote : Text → Text) (unmarshal : Text → Result Text Analysis)
    (decode : Text → Result Text ChatResponse)
    (send : ChatRequest → W → Result Text (ℕ × Text) × W) where
  abbrev asks : OpenAi × (W × List ChatRequest) → ℕ
  asks v = length v.1.1

  abbrev call :
      Prompt
      → OpenAi × (W × List ChatRequest)
      → Result Text Text × (OpenAi × (W × List ChatRequest))
  call = complete decode (noted send)

  call-asks :
      (prompt : Prompt) (v : OpenAi × (W × List ChatRequest)) → asks (call prompt v).1 ≤ asks v + 3
  call-asks prompt (p, (w, log)) =
      let a = complete-Asked decode send prompt p w log in
      omega (arith, ap length a.in_log, length-append log a.requests, a.few)

  checked-asks :
      (n : ℕ)
      (after : Text
        → OpenAi × (W × List ChatRequest)
        → Result RunError Analysis × (OpenAi × (W × List ChatRequest)))
      (d : Result Text Analysis) (v : OpenAi × (W × List ChatRequest))
      → ((e : Text) (u : OpenAi × (W × List ChatRequest)) → asks (after e u).1 ≤ asks u + n)
      → asks (checked quote unmarshal call after d v).1 ≤ asks v + n
  checked-asks n after (ok a) v h = omega arith
  checked-asks n after (err e) v h = h e v

  attempt-asks :
      (n : ℕ)
      (after : Text
        → OpenAi × (W × List ChatRequest)
        → Result RunError Analysis × (OpenAi × (W × List ChatRequest)))
      (r : Result Text Text × (OpenAi × (W × List ChatRequest)))
      → ((e : Text) (v : OpenAi × (W × List ChatRequest)) → asks (after e v).1 ≤ asks v + n)
      → asks (attempt quote unmarshal call after r).1 ≤ asks r.1 + n
  attempt-asks n after (err e, v) h = omega arith
  attempt-asks n after (ok raw, v) h =
      checked-asks n after (decode_and_validate quote unmarshal raw) v h

  run_from-asks :
      (n : ℕ) (prompt instruction : Prompt) (v : OpenAi × (W × List ChatRequest))
      → asks (run_from quote unmarshal call n prompt instruction v).1 ≤ asks v + 3 * suc n
  unfolding run_from
  run_from-asks zero prompt instruction v = omega (
    arith,
    call-asks instruction v,
    attempt-asks 0 (λ e q. (err (RunError.degraded e), q)) (call instruction v)
        (λ e u. omega arith),
  )
  run_from-asks (suc n) prompt instruction v = omega (
    arith,
    call-asks instruction v,
    attempt-asks (3 * suc n) (λ e q. run_from quote unmarshal call n prompt (corrected prompt e) q)
        (call instruction v) (λ e u. run_from-asks n prompt (corrected prompt e) u),
  )

  -- An evaluation with the OpenAI-compatible provider sends at most three requests for each of its
  -- attempts, one attempt more than there are retries, whatever the endpoint answers.
  pub run-requests :
      (max_retries : ℕ) (prompt : Prompt) (p : OpenAi) (w : W) (log : List ChatRequest)
      → length
          (run quote unmarshal
            (complete decode (noted send))
            max_retries
            prompt
            (p, (w, log))).1.1.1
        ≤ length log + 3 * suc max_retries
  unfolding run
  run-requests max_retries prompt p w log = run_from-asks max_retries prompt prompt (p, (w, log))
