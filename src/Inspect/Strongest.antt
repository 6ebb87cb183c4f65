-- ===== src/Inspect/Strongest.antt =====
-- What the decisions of a list of findings come to, and what each may be.
use sentin_npu.Config.{Config, mode_for}
use sentin_npu.Core.Ceiling.{IsDeclared, clamp_decision-le}
use sentin_npu.Core.DataKind
use sentin_npu.Core.DataKind.{DataKind}
use sentin_npu.Core.Decision
use sentin_npu.Core.Decision.{Decision, observed, advised, masked, blocked, rank}
use sentin_npu.Core.Finding
use sentin_npu.Core.Finding.{Finding}
use sentin_npu.Core.Validation.{checksum}
use sentin_npu.Inspect.Pipeline.{
  prompt_decision, attachment_decision, unmasked, prompt_summary, attachment_summary,
}
use sentin_npu.Audit.Event.{prompt}
use sentin_npu.Inspect.Types.{AttachmentInfo, FindingSummary}
use sentin_npu.Prelude.{◌≤◌, ◌≡◌, ◌≢◌, refl, ◌⊎◌, inl, inr, List, [], ◌∷◌, ◌++◌, All, arith}

-- The strongest decision of a list of findings.
abbrev pub strongest : List FindingSummary → Decision
strongest [] = observed
strongest (s ∷ ss) = Decision.max s.decision (strongest ss)

max-observed : (d : Decision) → Decision.max d observed ≡ d
unfolding Decision.max
max-observed d = ground arith

max-max : (a b c : Decision) → Decision.max a (Decision.max b c) ≡ Decision.max (Decision.max a b) c
unfolding Decision.max
max-max a b c = ground arith

max_comm : (a b : Decision) → Decision.max a b ≡ Decision.max b a
unfolding Decision.max
max_comm a b = ground arith

-- One more finding at the end raises the strongest decision to its own.
pub strongest-append :
    (ss : List FindingSummary) (s : FindingSummary)
    → strongest (ss ++ s ∷ []) ≡ Decision.max (strongest ss) s.decision
strongest-append [] s = max_comm s.decision observed
strongest-append (x ∷ ss) s =
    rw (strongest-append ss s) (max-max x.decision (strongest ss) s.decision)

-- A finding's decision is at most the mode that is configured for its kind and at most the kind's
-- ceiling, and in an attachment it is not `masked`.
pub record IsWithin (config : Config) (s : FindingSummary) : Type 0 where
  pub configured : rank s.decision ≤ rank (mode_for config s.kind)
  pub ceiling : rank s.decision ≤ rank (DataKind.max_decision s.kind)
  pub unmasked : (s.source ≡ prompt) ⊎ (s.decision ≢ masked)

clamp_decision-max_decision :
    (f : Finding) (d : Decision)
    → IsDeclared f
    → rank (Finding.clamp_decision f d) ≤ rank (DataKind.max_decision f.kind)
unfolding Finding.clamp_decision DataKind.max_decision
clamp_decision-max_decision f d h = ground arith

unmasked-le : (d : Decision) → rank (unmasked d) ≤ rank d
unmasked-le d = ground arith

unmasked-ne : (d : Decision) → unmasked d ≢ masked
unmasked-ne d = ground arith

pub prompt_summary-IsWithin :
    (config : Config) (f : Finding) → IsDeclared f → IsWithin config (prompt_summary config f)
unfolding prompt_decision
prompt_summary-IsWithin config f h = record {
  configured = (clamp_decision-le f (mode_for config f.kind)).0;
  ceiling = clamp_decision-max_decision f (mode_for config f.kind) h;
  unmasked = inl refl;
}

pub attachment_summary-IsWithin :
    (config : Config) (info : AttachmentInfo) (f : Finding)
    → IsDeclared f
    → IsWithin config (attachment_summary config info f)
unfolding attachment_decision
attachment_summary-IsWithin config info f h =
    let d = Finding.clamp_decision f (mode_for config f.kind) in
    let low = unmasked-le d in
    record {
      configured = omega (arith, low, (clamp_decision-le f (mode_for config f.kind)).0);
      ceiling = omega (arith, low, clamp_decision-max_decision f (mode_for config f.kind) h);
      unmasked = inr (unmasked-ne d);
    }

-- Some element has the property.
abbrev pub Any : (FindingSummary → Type 0) → List FindingSummary → Type 0
Any P [] = ⊥
Any P (x ∷ xs) = P x ⊎ Any P xs

-- A finding that may block: blocking is configured for its kind, whose evidence is a checksum.
pub record IsBlocker (config : Config) (s : FindingSummary) : Type 0 where
  pub decision : s.decision ≡ blocked
  pub configured : mode_for config s.kind ≡ blocked
  pub evidence : DataKind.evidence s.kind ≡ checksum

IsWithin-IsBlocker :
    (config : Config) (s : FindingSummary)
    → IsWithin config s
    → s.decision ≡ blocked
    → IsBlocker config s
unfolding DataKind.max_decision
IsWithin-IsBlocker config s w e =
    let a = w.configured in
    let b = w.ceiling in record { decision = e; configured = ground arith; evidence = ground arith }

max-blocked : (a b : Decision) → Decision.max a b ≡ blocked → (a ≡ blocked) ⊎ (b ≡ blocked)
unfolding Decision.max
max-blocked a b e = ground arith

max-masked : (a b : Decision) → Decision.max a b ≡ masked → (a ≡ masked) ⊎ (b ≡ masked)
unfolding Decision.max
max-masked a b e = ground arith

pub strongest-blocked :
    (config : Config) (ss : List FindingSummary)
    → All (IsWithin config) ss
    → strongest ss ≡ blocked
    → Any (IsBlocker config) ss
strongest-blocked config [] h e = ground arith
strongest-blocked config (s ∷ ss) (w, h) e = elim (max-blocked s.decision (strongest ss) e) [
  | inl here ↦ inl (IsWithin-IsBlocker config s w here)
  | inr later ↦ inr (strongest-blocked config ss h later)
]

-- When a finding of this decision is the strongest, one has it.
pub strongest-masked :
    (ss : List FindingSummary) → strongest ss ≡ masked → Any (λ s. s.decision ≡ masked) ss
strongest-masked [] e = ground arith
strongest-masked (s ∷ ss) e = elim (max-masked s.decision (strongest ss) e) [
  | inl here ↦ inl here
  | inr later ↦ inr (strongest-masked ss later)
]
