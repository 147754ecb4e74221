-- ===== src/Monitor/Totals.antt =====
-- The counters of pkg/mcp/monitoring.go: what one more request does to them, and to a map of them.
use native.Mathlib.Nat.{mul-le-mul_left, mul-div-le}
use suse_ai_up.Prelude.{
  String, ℕ, Bool, true, false, ◌+◌, ◌*◌, ◌==◌, ◌≤◌, ◌≢◌, ◌≡◌, refl, [], ◌∷◌, Option, none, some,
  arith, Map, lookup, insert, List, Bool-cases, Option-cases, inl, inr, if◌then◌else◌, ltb, subst,
}
use suse_ai_up.Monitor.{
  OperationMetrics, new_metrics, update_metrics, count_at, initial_metrics, cleared,
}

module _ {F : Type 0} where
  -- The sum of the requests that the metrics of a map have counted.
  unfoldable pub total_of : Map (OperationMetrics F) → ℕ
  total_of [] = 0
  total_of ((key, om) ∷ metrics) = om.total_requests + total_of metrics

  requests_at : Option (OperationMetrics F) → ℕ
  requests_at none = 0
  requests_at (some om) = om.total_requests

  total_of-insert :
      (key : String) (om : OperationMetrics F) (m : Map (OperationMetrics F))
      → total_of (insert key om m) + requests_at (lookup key m) ≡ total_of m + om.total_requests
  unfolding total_of insert lookup requests_at
  total_of-insert key om [] = omega arith
  total_of-insert key om ((own, value) ∷ m) = elim (Bool-cases (own == key)) [
    | inl e ↦ rw e (omega arith)
    | inr e ↦ rw e (omega (arith, total_of-insert key om m))
  ]

module _ {F : Type 0} (zero_rate : F) (rate : (failed total : ℕ) → F) where
  -- The counters fit each other; `min_latency` is no bound, since 0 stands for none.
  pub record IsBalanced (om : OperationMetrics F) : Type 0 where
    pub counted : om.successful_reqs + om.failed_reqs ≡ om.total_requests
    pub average : om.total_requests * om.average_latency ≤ om.total_latency
    pub longest : om.total_latency ≤ om.total_requests * om.max_latency
    pub shortest : om.min_latency ≤ om.max_latency
    pub rated : om.total_requests ≢ 0 → om.error_rate ≡ rate om.failed_reqs om.total_requests

  unfoldable pub AllBalanced : Map (OperationMetrics F) → Type 0
  AllBalanced [] = Unit
  AllBalanced ((key, om) ∷ metrics) = IsBalanced om × AllBalanced metrics

  pub new_metrics-IsBalanced : IsBalanced (new_metrics zero_rate rate)
  unfolding new_metrics
  new_metrics-IsBalanced = record {
    counted = refl;
    average = omega arith;
    longest = omega arith;
    shortest = omega arith;
    rated = λ n. absurd (n refl);
  }

  pub update_metrics-IsBalanced :
      (now : ℕ) (success : Bool) (latency : ℕ) (om : OperationMetrics F)
      → IsBalanced om
      → IsBalanced (update_metrics zero_rate rate now success latency om)
  unfolding update_metrics
  update_metrics-IsBalanced now success latency om h = record {
    counted = elim (Bool-cases success) [
      | inl e ↦ rw e (omega (arith, h.counted))
      | inr e ↦ rw e (omega (arith, h.counted))
    ];
    average = mul-div-le (om.total_latency + latency) (om.total_requests + 1);
    longest = elim (Bool-cases (ltb om.max_latency latency)) [
      | inl e ↦
          let less : om.max_latency ≤ latency = ground (arith, e) in
          rw e (omega (arith, h.longest, mul-le-mul_left om.total_requests less))
      | inr e ↦
          rw e (let most : latency ≤ om.max_latency = ground (arith, e) in omega (arith, h.longest))
    ];
    shortest = ground (arith, h.shortest);
    rated = λ _. refl;
  }

  insert-AllBalanced :
      (key : String) (om : OperationMetrics F) (m : Map (OperationMetrics F))
      → IsBalanced om
      → AllBalanced m
      → AllBalanced (insert key om m)
  unfolding AllBalanced insert
  insert-AllBalanced key om [] own h = (own, tt)
  insert-AllBalanced key om ((k, value) ∷ m) own (first, h) = elim (Bool-cases (k == key)) [
    | inl e ↦ rw e (own, h)
    | inr e ↦ rw e (first, insert-AllBalanced key om m own h)
  ]

  lookup-AllBalanced :
      (key : String) (om : OperationMetrics F) (m : Map (OperationMetrics F))
      → AllBalanced m
      → lookup key m ≡ some om
      → IsBalanced om
  unfolding AllBalanced lookup
  lookup-AllBalanced key om [] h e = absurd cc
  lookup-AllBalanced key om ((k, value) ∷ m) (first, h) e = elim (Bool-cases (k == key)) [
    | inl s ↦ let same : value ≡ om = cc (rw s at e) in subst IsBalanced same first
    | inr s ↦ lookup-AllBalanced key om m h (rw s at e)
  ]

  pub count_at-AllBalanced :
      (now : ℕ) (success : Bool) (latency : ℕ) (key : String) (m : Map (OperationMetrics F))
      → AllBalanced m
      → AllBalanced (count_at zero_rate rate now success latency key m)
  unfolding count_at
  count_at-AllBalanced now success latency key m h = elim (Option-cases (lookup key m)) [
    | inl n ↦
        rw (count_at, n)
          (insert-AllBalanced key _ m
            (update_metrics-IsBalanced now success latency _ new_metrics-IsBalanced) h)
    | inr (om, n) ↦
        rw (count_at, n)
          (insert-AllBalanced key _ m
            (update_metrics-IsBalanced now success latency om (lookup-AllBalanced key om m h n)) h)
  ]

  pub total_of-count_at :
      (now : ℕ) (success : Bool) (latency : ℕ) (key : String) (m : Map (OperationMetrics F))
      → total_of (count_at zero_rate rate now success latency key m) ≡ total_of m + 1
  unfolding count_at update_metrics new_metrics requests_at
  total_of-count_at now success latency key m = elim (Option-cases (lookup key m)) [
    | inl n ↦
        let sum =
          total_of-insert key
            (update_metrics zero_rate rate now success latency (new_metrics zero_rate rate)) m in
        rw (count_at, n) (omega (arith, rw n at sum))
    | inr (om, n) ↦
        let sum = total_of-insert key (update_metrics zero_rate rate now success latency om) m in
        rw (count_at, n) (omega (arith, rw n at sum))
  ]

  pub initial_metrics-AllBalanced :
      (operations : List String) (m : Map (OperationMetrics F))
      → AllBalanced m
      → AllBalanced (initial_metrics zero_rate rate operations m)
  unfolding initial_metrics
  initial_metrics-AllBalanced [] m h = h
  initial_metrics-AllBalanced (operation ∷ operations) m h =
      initial_metrics-AllBalanced operations _
        (insert-AllBalanced operation _ m new_metrics-IsBalanced h)

  pub cleared-AllBalanced : (m : Map (OperationMetrics F)) → AllBalanced (cleared zero_rate rate m)
  unfolding cleared AllBalanced
  cleared-AllBalanced [] = tt
  cleared-AllBalanced ((key, om) ∷ m) = (new_metrics-IsBalanced, cleared-AllBalanced m)

  pub total_of-cleared : (m : Map (OperationMetrics F)) → total_of (cleared zero_rate rate m) ≡ 0
  unfolding cleared total_of new_metrics
  total_of-cleared [] = refl
  total_of-cleared ((key, om) ∷ m) = omega (arith, total_of-cleared m)

  -- The metrics of a session or of an adapter, which a request without a name leaves as they are.
  pub count_at-AllBalanced_if :
      (skip : Bool) (now : ℕ) (success : Bool) (latency : ℕ) (key : String)
      (m : Map (OperationMetrics F))
      → AllBalanced m
      → AllBalanced (if skip then m else count_at zero_rate rate now success latency key m)
  count_at-AllBalanced_if true now success latency key m h = h
  count_at-AllBalanced_if false now success latency key m h =
      count_at-AllBalanced now success latency key m h

  pub total_of-count_at_if :
      (skip : Bool) (now : ℕ) (success : Bool) (latency : ℕ) (key : String) (n : ℕ)
      (m : Map (OperationMetrics F))
      → total_of m ≤ n
      → total_of (if skip then m else count_at zero_rate rate now success latency key m) ≤ n + 1
  total_of-count_at_if true now success latency key n m h = omega (arith, h)
  total_of-count_at_if false now success latency key n m h =
      omega (arith, h, total_of-count_at now success latency key m)
