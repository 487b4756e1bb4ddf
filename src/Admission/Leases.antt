-- ===== src/Admission/Leases.antt =====
-- The controller against its promise: the counters are the number of leases that are held, and a
-- limit on active requests bounds that number, whatever the order of the calls.

use vllm_source_gateway.Base.{
  suc, String, ◌≡◌, ◌+◌, ◌-◌, List, ◌∷◌, Bool, ◌&&◌, some, beq, string_eq, pair_eq, count_by, arith,
  if◌then◌else◌,
}
use vllm_source_gateway.Dict.{get_or-put}
use vllm_source_gateway.Metrics.Inflight.{inflight_incs, inflight_decs}
use vllm_source_gateway.Admission.Controller.{
  Controller, AdmissionLease, Key, active_of_model, active_of,
}
use vllm_source_gateway.Admission.Acquire.{release, admit}
use vllm_source_gateway.Admission.Cases.{Frame}

abbrev pub on_model : String → AdmissionLease → Bool
on_model m l = beq l.model_name m

abbrev pub on_key : Key → AdmissionLease → Bool
on_key k l = beq (l.department, l.model_name) k

abbrev pub on_labels : (d m e : String) → AdmissionLease → Bool
on_labels d m e l = beq l.department d && beq l.model_name m && beq l.endpoint e

-- The counters and the gauge agree with the leases that are held.
pub record Counts (c : Controller) (held : List AdmissionLease) : Type 0 where
  pub by_model : (m : String) → active_of_model c m ≡ count_by (on_model m) held
  pub by_key : (k : Key) → active_of c k ≡ count_by (on_key k) held
  pub gauge :
      (d m e : String)
      → inflight_incs d m e c.metrics
        ≡ inflight_decs d m e c.metrics + count_by (on_labels d m e) held

-- What `admit` and `release` do to a counter, at every key.
module _ (c : Controller) (d m e : String) where
  pub admit-model :
      (n : String)
      → active_of_model (admit c d m e).1 n
        ≡ (if beq m n then suc (active_of_model c n) else active_of_model c n)
  unfolding admit
  admit-model n =
      rw (get_or-put c.active_by_model m n (active_of_model c m + 1) 0)
        (ground (arith, string_eq.test_iff m n))

  pub admit-key :
      (k : Key)
      → active_of (admit c d m e).1 k
        ≡ (if beq (d, m) k then suc (active_of c k) else active_of c k)
  unfolding admit
  admit-key k =
      rw (get_or-put c.active_by_department_model (d, m) k (active_of c (d, m) + 1) 0)
        (ground (arith, pair_eq.test_iff (d, m) k))

module _ (c : Controller) (l : AdmissionLease) where
  pub release-model :
      (n : String)
      → active_of_model (release c (some l)) n
        ≡ (if beq l.model_name n then active_of_model c n - 1 else active_of_model c n)
  unfolding release
  release-model n =
      rw (get_or-put c.active_by_model l.model_name n (active_of_model c l.model_name - 1) 0)
        (ground (arith, string_eq.test_iff l.model_name n))

  pub release-key :
      (k : Key)
      → active_of (release c (some l)) k
        ≡ (if beq (l.department, l.model_name) k then active_of c k - 1 else active_of c k)
  unfolding release
  release-key k =
      rw
        (get_or-put c.active_by_department_model (l.department, l.model_name) k
          (active_of c (l.department, l.model_name) - 1) 0)
        (ground (arith, pair_eq.test_iff (l.department, l.model_name) k))

pub Counts-Frame :
    {c q : Controller} {held : List AdmissionLease} → Frame c q → Counts c held → Counts q held
Counts-Frame f v = record {
  by_model = λ m. rw f.by_model (v.by_model m);
  by_key = λ k. rw f.by_department (v.by_key k);
  gauge = λ d m e. omega (arith, f.incs d m e, f.decs d m e, v.gauge d m e);
}

abbrev pub lease_of : (d m e : String) → AdmissionLease
lease_of d m e = record { department = d; model_name = m; endpoint = e }

pub admit-Counts :
    (c : Controller) (d m e : String) (held : List AdmissionLease)
    → Counts c held
    → Counts (admit c d m e).1 (lease_of d m e ∷ held)
unfolding admit
admit-Counts c d m e held v = record {
  by_model = λ n. rw (admit-model c d m e n) (ground (arith, v.by_model n));
  by_key = λ k. rw (admit-key c d m e k) (ground (arith, v.by_key k));
  gauge = λ a b f. ground (arith, v.gauge a b f);
}

pub release-Counts :
    (c : Controller) (l : AdmissionLease) (held : List AdmissionLease)
    → Counts c (l ∷ held)
    → Counts (release c (some l)) held
unfolding release
release-Counts c l held v = record {
  by_model = λ n. rw (release-model c l n) (ground (arith, v.by_model n));
  by_key = λ k. rw (release-key c l k) (ground (arith, v.by_key k));
  gauge = λ a b f. ground (arith, v.gauge a b f);
}
