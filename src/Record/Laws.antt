-- ===== src/Record/Laws.antt =====
-- What `record_request` reports of an inspection.
use mathlib.Core.Path.{ap₂}
use sentin_npu.Audit.Event.{Event, EventKind, Source, pii_detected, attachment_skipped}
use sentin_npu.Core.DataKind.{DataKind}
use sentin_npu.Core.Decision.{Decision}
use sentin_npu.Core.Device.{Device, Outcome, returns, panics, parse_name}
use sentin_npu.Core.Naming.{IsAscii, parse_name-ascii}
use sentin_npu.Inspect.Types.{FindingSummary, UnreadAttachment, Skipped, Inspection, AttachmentInfo}
use sentin_npu.Prelude.{
  ◌≡◌, ◌≢◌, refl, sym, ap, ◌∙◌, inl, inr, Bool, true, false, List, [], ◌∷◌, ◌++◌, map, Option, none,
  some, All, arith, is_empty, Bytes, Bool-cases, &&-eq-true, append-nil, if◌then◌else◌,
}
use sentin_npu.Record.{
  RequestContext, with_parsed, with_device, detection, detections, summary, skipped, timeout,
  identified, attachment_of, after_detections, nothing_to_report, record_request,
}

-- What a detection says: the kind, the decision, and where.
abbrev pub report : Event → Option DataKind × Option Decision × Option Source
report e = (e.data_type, e.decision, e.source)

abbrev is_detection : EventKind → Bool
is_detection pii_detected = true
is_detection _ = false

-- The reports of the events that are detections, in order.
abbrev pub reports : List Event → List (Option DataKind × Option Decision × Option Source)
reports [] = []
reports (e ∷ es) = if is_detection e.event then report e ∷ reports es else reports es

abbrev pub reported : FindingSummary → Option DataKind × Option Decision × Option Source
reported f = (some f.kind, some f.decision, some f.source)

-- The device name, if there is one, is ASCII.
abbrev pub IsAsciiName : Option Bytes → Type 0
IsAsciiName none = Unit
IsAsciiName (some name) = All IsAscii name

-- An event returned that reports what `e` does.
record Returns (e : Event) (o : Outcome Event) : Type 0 where
  result : Event
  returned : o ≡ returns result
  same : (result.event ≡ e.event) × (report result ≡ report e)

with_parsed-Returns :
    (device : Bytes) (e : Event) (o : Outcome (Option Device))
    → o ≢ panics
    → Returns e (with_parsed device e o)
with_parsed-Returns device e panics h = absurd (h refl)
with_parsed-Returns device e (returns none) h = record {
  result = _;
  returned = refl;
  same = (refl, refl);
}
with_parsed-Returns device e (returns (some d)) h = record {
  result = _;
  returned = refl;
  same = (refl, refl);
}

with_device-Returns :
    (device : Option Bytes) (e : Event) → IsAsciiName device → Returns e (with_device device e)
unfolding with_device
with_device-Returns none e h = record { result = e; returned = refl; same = (refl, refl) }
with_device-Returns (some d) e h = with_parsed-Returns d e (parse_name d) (parse_name-ascii d h)

reports-cons :
    (e : Event) (x : Option DataKind × Option Decision × Option Source) (es : List Event)
    (xs : List (Option DataKind × Option Decision × Option Source))
    → e.event ≡ pii_detected
    → report e ≡ x
    → reports es ≡ xs
    → reports (e ∷ es) ≡ x ∷ xs
reports-cons e x es xs he hx hr =
    ap (λ k. if is_detection k then report e ∷ reports es else reports es) he ∙ ap₂ (◌∷◌) hx hr

module _ (ts hash : Bytes) (debug : Skipped → Bytes) (context : RequestContext) where
  attachment_of-report :
      (a : Option AttachmentInfo) (e : Event)
      → ((attachment_of a e).event ≡ e.event) × (report (attachment_of a e) ≡ report e)
  attachment_of-report none e = (refl, refl)
  attachment_of-report (some info) e = (refl, refl)

  detection-report :
      (f : FindingSummary)
      → ((detection ts hash debug context f).event ≡ pii_detected)
        × (report (detection ts hash debug context f) ≡ reported f)
  unfolding detection
  detection-report f = attachment_of-report f.attachment _

  identified-event :
      (u : UnreadAttachment) (k s : Option Bytes) (e : Event)
      → (identified ts hash debug context u k s e).event ≡ e.event
  identified-event u none s e = refl
  identified-event u (some k) none e = refl
  identified-event u (some k) (some s) e = refl

  skipped-event :
      (u : UnreadAttachment) → (skipped ts hash debug context u).event ≡ attachment_skipped
  unfolding skipped
  skipped-event u = identified-event u u.kind u.sha256 _

  reports-timeout : (o : Option Skipped) → reports (timeout ts hash debug context o) ≡ []
  unfolding timeout
  reports-timeout none = refl
  reports-timeout (some reason) = refl

  reports-skipped :
      (us : List UnreadAttachment) (o : Option Skipped)
      → reports (map (skipped ts hash debug context) us ++ timeout ts hash debug context o) ≡ []
  reports-skipped [] o = reports-timeout o
  reports-skipped (u ∷ us) o = rw (skipped-event u) (reports-skipped us o)

  reports-after_detections :
      {Value : Type 0} (verdict : Inspection Value)
      → reports (after_detections ts hash debug context verdict) ≡ []
  unfolding after_detections summary
  reports-after_detections verdict = elim (Bool-cases (is_empty verdict.findings)) [
    | inl e ↦ rw e (reports-skipped verdict.unread_attachments verdict.ner_skipped)
    | inr e ↦ rw e (reports-skipped verdict.unread_attachments verdict.ner_skipped)
  ]

  detections-reports :
      (fs : List FindingSummary) (rest : List Event)
      → IsAsciiName context.device
      → (es : List Event) × (detections ts hash debug context fs rest ≡ returns es)
        × (reports es ≡ map reported fs ++ reports rest)
  unfolding detections
  detections-reports [] rest h = (rest, refl, refl)
  detections-reports (f ∷ fs) rest h =
      let (es, e, r) = detections-reports fs rest h in
      let d = with_device-Returns context.device (detection ts hash debug context f) h in
      let k = detection-report f in
      (
        d.result ∷ es,
        rw (d.returned, e) refl,
        reports-cons d.result (reported f) es _ (d.same.0 ∙ k.0) (d.same.1 ∙ k.1) r,
      )

  is_empty-nil : {A : Type 0} (xs : List A) → is_empty xs ≡ true → xs ≡ []
  is_empty-nil [] e = refl
  is_empty-nil (x ∷ xs) e = ground arith

  nothing-findings :
      {Value : Type 0} (verdict : Inspection Value)
      → nothing_to_report verdict ≡ true
      → verdict.findings ≡ []
  nothing-findings verdict e = is_empty-nil verdict.findings (&&-eq-true _ _ e).0

  -- For a device name that is ASCII or absent, the events of a request are returned, and those that
  -- are detections report its findings one for one and in order: kind, decision and source.
  pub record_request-reports :
      {Value : Type 0} (verdict : Inspection Value)
      → IsAsciiName context.device
      → (es : List Event) × (record_request ts hash debug context verdict ≡ returns es)
        × (reports es ≡ map reported verdict.findings)
  unfolding record_request
  record_request-reports verdict h =
      let (es, e, r) =
        detections-reports verdict.findings (after_detections ts hash debug context verdict) h in
      elim (Bool-cases (nothing_to_report verdict)) [
        | inl none_there ↦
            ([], rw none_there refl, ap (map reported) (sym (nothing-findings verdict none_there)))
        | inr some_there ↦ (
          es,
          rw some_there e,
          r
              ∙ ap (λ x. map reported verdict.findings ++ x) (reports-after_detections verdict)
              ∙ append-nil (map reported verdict.findings),
        )
      ]

  -- The events behind the detections and the summary.
  abbrev tail_of : List UnreadAttachment → Option Skipped → List Event
  tail_of us o = map (skipped ts hash debug context) us ++ timeout ts hash debug context o
