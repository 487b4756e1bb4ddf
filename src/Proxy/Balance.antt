-- ===== src/Proxy/Balance.antt =====
-- Calls that leave the active requests of a controller as they are.
use vllm_source_gateway.Base.{ℕ, String, ◌≡◌, refl, ◌∙◌, ◌+◌, some, arith, string_eq, pair_eq}
use vllm_source_gateway.Http.{ok, raises, crashes, cancels, unfinished, and_then}
use vllm_source_gateway.Metrics.Inflight.{inflight_incs, inflight_decs}
use vllm_source_gateway.Admission.Controller.{Controller, Key, active_of_model, active_of}
use vllm_source_gateway.Admission.Acquire.{Acquired, acquire, admit, release}
use vllm_source_gateway.Admission.Cases.{Frame, acquire_rule}
use vllm_source_gateway.Admission.Leases.{
  admit-model, admit-key, release-model, release-key, lease_of,
}
use vllm_source_gateway.Proxy.State.{Gateway, Handled}

-- `q` counts as many active requests as `c`, for each model, for each department and model, and,
-- as the rise and the fall of the gauge, for each triple of labels.
pub record SameActive (c q : Controller) : Type 0 where
  pub by_model : (m : String) → active_of_model q m ≡ active_of_model c m
  pub by_key : (k : Key) → active_of q k ≡ active_of c k
  pub gauge :
      (d m e : String)
      → inflight_incs d m e q.metrics + inflight_decs d m e c.metrics
        ≡ inflight_incs d m e c.metrics + inflight_decs d m e q.metrics

pub same_refl : (c : Controller) → SameActive c c
same_refl c = record { by_model = λ m. refl; by_key = λ k. refl; gauge = λ d m e. refl }

pub same_trans : {c p q : Controller} → SameActive c p → SameActive p q → SameActive c q
same_trans s t = record {
  by_model = λ m. t.by_model m ∙ s.by_model m;
  by_key = λ k. t.by_key k ∙ s.by_key k;
  gauge = λ d m e. omega (arith, s.gauge d m e, t.gauge d m e);
}

pub Frame-SameActive : {c q : Controller} → Frame c q → SameActive c q
Frame-SameActive f = record {
  by_model = λ m. rw f.by_model refl;
  by_key = λ k. rw f.by_department refl;
  gauge = λ d m e. omega (arith, f.incs d m e, f.decs d m e);
}

-- A request that is admitted and released, whatever keeps the active requests in between.
admit-release :
    (c q : Controller) (d m e : String)
    → SameActive (admit c d m e).1 q
    → SameActive c (release q (some (lease_of d m e)))
unfolding admit release
admit-release c q d m e s = record {
  by_model = λ n.
      rw (release-model q (lease_of d m e) n)
        (rw (s.by_model n) (rw (admit-model c d m e n) (ground arith)));
  by_key = λ k.
      rw (release-key q (lease_of d m e) k)
        (rw (s.by_key k) (rw (admit-key c d m e k) (ground arith)));
  gauge = λ a b f. ground (arith, s.gauge a b f);
}

-- After `acquire`: a lease stands for what its release takes back.
abbrev pub Leased : Controller → Acquired → Type 0
Leased c (ok lease, p) = (q : Controller) → SameActive p q → SameActive c (release q lease)
Leased c (raises x, p) = SameActive c p
Leased c (crashes, p) = SameActive c p
Leased c (cancels, p) = SameActive c p
Leased c (unfinished, p) = SameActive c p

pub acquire-Leased : (c : Controller) (now : ℕ) (d m e : String) → Leased c (acquire c now d m e)
unfolding release admit
acquire-Leased c now d m e =
    acquire_rule (Leased c) c now d m e (λ _ q s. s) (λ x q f. Frame-SameActive f)
      λ p f _ _ q s. same_trans (Frame-SameActive f) (admit-release p q d m e s)

-- The state after a call counts the active requests of `g`.
abbrev pub Keeps : {A : Type 0} → Gateway → Handled A → Type 0
Keeps g (result, h) = SameActive g.admission h.admission

pub and_then-Keeps :
    {A B : Type 0} (g : Gateway) (m : Handled A) (k : A → Gateway → Handled B)
    → Keeps g m
    → ((a : A) (s : Gateway) → Keeps s (k a s))
    → Keeps g (and_then m k)
and_then-Keeps g (ok a, s) k same rest = same_trans same (rest a s)
and_then-Keeps g (raises x, s) k same rest = same
and_then-Keeps g (crashes, s) k same rest = same
and_then-Keeps g (cancels, s) k same rest = same
and_then-Keeps g (unfinished, s) k same rest = same
