-- ===== src/Admission/History.antt =====
-- Histories of timed calls, and the token budget after each of them.

use vllm_source_gateway.Base.{
  ℕ, ℤ, pos, to_nat, leb_ℤ, String, ◌≡◌, refl, ◌≤◌, List, [], ◌∷◌, ◌++◌, arith, beq, string_eq,
  pair_eq, if◌then◌else◌, not, ◌&&◌, Option, none, some,
}
use vllm_source_gateway.Json.{Fields}
use vllm_source_gateway.Admission.Controller.{
  Controller, AdmissionLease, Key, TokenEvent, events_of, record_rejection,
}
use vllm_source_gateway.Admission.Frames.{shape_rule}
use vllm_source_gateway.Admission.Shape.{reason_label, check_request_shape, reject_shape}
use vllm_source_gateway.Admission.Acquire.{acquire, release, admit, reject_budget}
use vllm_source_gateway.Admission.Accounting.{record_tokens, record_retry_event}
use vllm_source_gateway.Admission.Window.{IsExpired-later}
use vllm_source_gateway.Admission.Budget.{Tracks, All-mono}

pub data Call : Type 0 where
  acquires : (department model_name endpoint : String) → Call
  releases : Option AdmissionLease → Call
  checks_shape : (department model_name endpoint : String) → ℕ → Fields → Call
  records_tokens : (department model_name : String) → ℤ → Call
  records_retry : (department model_name : String) → Call

unfoldable pub perform : Controller → ℕ × Call → Controller
perform c (now, acquires d m e) = (acquire c now d m e).1
perform c (now, releases lease) = release c lease
perform c (now, checks_shape d m e body_size payload) =
    (check_request_shape c d m e body_size payload).1
perform c (now, records_tokens d m tokens) = record_tokens c now d m tokens
perform c (now, records_retry d m) = record_retry_event c now d m

unfoldable pub run : Controller → List (ℕ × Call) → Controller
unfolding perform
run c [] = c
run c (call ∷ calls) = run (perform c call) calls

-- The clock does not go back.
abbrev pub IsOrdered : ℕ → List (ℕ × Call) → Type 0
IsOrdered last [] = Unit {0}
IsOrdered last (call ∷ calls) = (last ≤ call.0) × IsOrdered call.0 calls

abbrev pub last_time : ℕ → List (ℕ × Call) → ℕ
last_time last [] = last
last_time last (call ∷ calls) = last_time call.0 calls

-- The positive token counts that a call records for a department and a model.
abbrev pub recorded_by : Key → ℕ × Call → List TokenEvent
recorded_by k (now, records_tokens d m tokens) =
    if not (leb_ℤ tokens (pos 0)) && beq {K = Key} (d, m) k then (now, to_nat tokens) ∷ [] else []
recorded_by k _ = []

abbrev pub recorded : Key → List (ℕ × Call) → List TokenEvent
recorded k [] = []
recorded k (call ∷ calls) = recorded_by k call ++ recorded k calls

-- `q` has the configuration and the token state of `c`.
pub record SameTokens (c q : Controller) : Type 0 where
  pub config : q.config ≡ c.config
  pub events : q.token_events ≡ c.token_events
  pub totals : q.token_totals ≡ c.token_totals

module _ {window : ℕ} {k : Key} {all : List TokenEvent} where
  pub same-Tracks :
      {c q : Controller} {last : ℕ}
      → SameTokens c q
      → Tracks window c k all last
      → Tracks window q k all last
  same-Tracks s t = record {
    old = t.old;
    whole = rw s.events t.whole;
    gone = t.gone;
    total = rw (s.events, s.totals) t.total;
    ascending = rw s.events t.ascending;
    bounded = rw s.events t.bounded;
  }

  pub later-Tracks :
      {c : Controller} {last now : ℕ}
      → last ≤ now
      → Tracks window c k all last
      → Tracks window c k all now
  later-Tracks {c} {last} {now} later t = record {
    old = t.old;
    whole = t.whole;
    gone = IsExpired-later last now window t.old later t.gone;
    total = t.total;
    ascending = t.ascending;
    bounded = All-mono last now (events_of c k) later t.bounded;
  }

pub admit-SameTokens : (c : Controller) (d m e : String) → SameTokens c (admit c d m e).1
unfolding admit
admit-SameTokens c d m e = record { config = refl; events = refl; totals = refl }

pub release-SameTokens : (c : Controller) (l : Option AdmissionLease) → SameTokens c (release c l)
unfolding release
release-SameTokens c none = record { config = refl; events = refl; totals = refl }
release-SameTokens c (some l) = record { config = refl; events = refl; totals = refl }

pub rejection-SameTokens :
    (c : Controller) (d m reason : String) → SameTokens c (record_rejection c d m reason)
unfolding record_rejection
rejection-SameTokens c d m reason = record { config = refl; events = refl; totals = refl }

pub reject_budget-SameTokens : (c : Controller) (d m : String) → SameTokens c (reject_budget c d m)
unfolding reject_budget record_rejection
reject_budget-SameTokens c d m = record { config = refl; events = refl; totals = refl }

pub retry-SameTokens :
    (c : Controller) (now : ℕ) (d m : String) → SameTokens c (record_retry_event c now d m)
unfolding record_retry_event
retry-SameTokens c now d m = record {
  config = ground arith;
  events = ground arith;
  totals = ground arith;
}

pub shape-SameTokens :
    (c : Controller) (d m e : String) (body_size : ℕ) (payload : Fields)
    → SameTokens c (check_request_shape c d m e body_size payload).1
unfolding reject_shape
shape-SameTokens c d m e body_size payload =
    shape_rule (SameTokens c) c d m e body_size payload
      (record { config = refl; events = refl; totals = refl })
      (λ reason. rejection-SameTokens c d m (reason_label reason))
