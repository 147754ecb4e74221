-- ===== src/Ports/Steps.antt =====
-- The calls of `PortManager` (pkg/proxy/port_manager.go) as steps, and what holds after any
-- sequence of them.
use suse_ai_up.Prelude.{
  ℕ, suc, ◌-◌, ◌+◌, ◌≤◌, ◌<◌, String, false, some, ◌≡◌, ◌≢◌, refl, [], ◌∷◌, Map, lookup, insert,
  values, In, length, Option-cases, String-cases, inl, inr, arith, IsMap, lookup-insert,
  lookup-delete, insert-IsMap, delete-IsMap, In-values_of-lookup, lookup_of-In-values, ◌∙◌, sym,
  eq_iff,
}
use suse_ai_up.Ports.{
  PortManager, port, no_available_ports, is_port_used, first_free, allocate_port, release_port,
  new_port_manager,
}
use suse_ai_up.Ports.Search.{used-In, In-used, first_free_sound, first_free-none, range-length}

pub data Step (c d : PortManager) : Type 0 where
  allocate_step : (adapter_id : String) → d ≡ (allocate_port adapter_id c).0 → Step c d
  release_step : (adapter_id : String) → d ≡ release_port adapter_id c → Step c d

pub data Reach (c : PortManager) : PortManager → Type 0 where
  here : Reach c c
  next : {d e : PortManager} → Reach c d → Step d e → Reach c e

-- Each port that is given out is in the range, and no two adapters have the same.
pub record IsApart (lo hi : ℕ) (pm : PortManager) : Type 0 where
  pub bottom : pm.min_port ≡ lo
  pub top : pm.max_port ≡ hi
  pub map : IsMap pm.allocated
  pub in_range : (a : String) (p : ℕ) → lookup a pm.allocated ≡ some p → (lo ≤ p) × (p ≤ hi)
  pub apart :
      (a b : String) (p : ℕ)
      → lookup a pm.allocated ≡ some p
      → lookup b pm.allocated ≡ some p
      → a ≡ b

free-no_owner :
    (pm : PortManager) (p : ℕ) (a : String)
    → is_port_used pm p ≡ false
    → lookup a pm.allocated ≢ some p
free-no_owner pm p a h e = ground (arith, In-used pm p (In-values_of-lookup a p pm.allocated e))

give-IsApart :
    (lo hi : ℕ) (pm : PortManager) (a : String) (p : ℕ)
    → IsApart lo hi pm
    → (lo ≤ p) × (p ≤ hi)
    → is_port_used pm p ≡ false
    → IsApart lo hi (record pm { allocated = insert a p pm.allocated })
give-IsApart lo hi pm a p h r f = record {
  bottom = h.bottom;
  top = h.top;
  map = insert-IsMap a p pm.allocated h.map;
  in_range = λ b q e. elim (String-cases a b) [
    | inl s ↦ ground (arith, lookup-insert a b p pm.allocated, eq_iff a b)
    | inr (n, s) ↦ h.in_range b q (ground (arith, lookup-insert a b p pm.allocated))
  ];
  apart = λ b c q e g. elim (String-cases a b) [
    | inl s ↦ elim (String-cases a c) [
      | inl t ↦ sym s ∙ t
      | inr (n, t) ↦ absurd (
          free-no_owner pm p c f (
            ground (
              arith,
              lookup-insert a b p pm.allocated,
              lookup-insert a c p pm.allocated,
              eq_iff a b,
            )))
    ]
    | inr (m, s) ↦ elim (String-cases a c) [
      | inl t ↦ absurd (
          free-no_owner pm p b f (
            ground (
              arith,
              lookup-insert a b p pm.allocated,
              lookup-insert a c p pm.allocated,
              eq_iff a c,
            )))
      | inr (n, t) ↦
          h.apart b c q (ground (arith, lookup-insert a b p pm.allocated))
            (ground (arith, lookup-insert a c p pm.allocated))
    ]
  ];
}

allocate_port-IsApart :
    (lo hi : ℕ) (a : String) (pm : PortManager)
    → IsApart lo hi pm
    → IsApart lo hi (allocate_port a pm).0
unfolding allocate_port
allocate_port-IsApart lo hi a pm h = elim (Option-cases (lookup a pm.allocated)) [
  | inl e ↦ elim (Option-cases (first_free pm (suc pm.max_port - pm.min_port) pm.min_port)) [
    | inl f ↦ rw (allocate_port, e, f) h
    | inr (p, f) ↦
        let (a, b, c) = first_free_sound pm _ pm.min_port p f in
        rw (allocate_port, e, f) (give-IsApart lo hi pm _ p h (omega (arith, h.bottom, h.top)) c)
  ]
  | inr (p, e) ↦ rw (allocate_port, e) h
]

release_port-IsApart :
    (lo hi : ℕ) (a : String) (pm : PortManager)
    → IsApart lo hi pm
    → IsApart lo hi (release_port a pm)
unfolding release_port
release_port-IsApart lo hi a pm h = record {
  bottom = h.bottom;
  top = h.top;
  map = delete-IsMap a pm.allocated h.map;
  in_range = λ b q e. h.in_range b q (ground (arith, lookup-delete a b pm.allocated));
  apart = λ b c q e g.
      h.apart b c q (ground (arith, lookup-delete a b pm.allocated))
        (ground (arith, lookup-delete a c pm.allocated));
}

-- After any sequence of `AllocatePort` and `ReleasePort` on a new manager, each port that is given
-- out is between the bounds, and no two adapters have the same one.
pub Reach-IsApart :
    (lo hi : ℕ) (pm : PortManager) → Reach (new_port_manager lo hi) pm → IsApart lo hi pm
unfolding new_port_manager lookup
Reach-IsApart lo hi pm here = record {
  bottom = refl;
  top = refl;
  map = tt;
  in_range = λ a p e. cc;
  apart = λ a b p e g. cc;
}
Reach-IsApart lo hi pm (next r (allocate_step a e)) =
    rw e (allocate_port-IsApart lo hi a _ (Reach-IsApart lo hi _ r))
Reach-IsApart lo hi pm (next r (release_step a e)) =
    rw e (release_port-IsApart lo hi a _ (Reach-IsApart lo hi _ r))

values-length : (m : Map ℕ) → length (values m) ≡ length m
unfolding values
values-length [] = refl
values-length ((a, p) ∷ m) = omega (arith, values-length m)

range_used :
    (a : String) (pm : PortManager) (lo hi : ℕ)
    → (allocate_port a pm).1 ≡ no_available_ports lo hi
    → (q : ℕ) → pm.min_port ≤ q
    → q < pm.min_port + (suc pm.max_port - pm.min_port)
    → In q (values pm.allocated)
unfolding allocate_port
range_used a pm lo hi h q low high = elim (Option-cases (lookup a pm.allocated)) [
  | inr (p, e) ↦ ground arith
  | inl e ↦ elim (Option-cases (first_free pm (suc pm.max_port - pm.min_port) pm.min_port)) [
    | inr (p, f) ↦ ground arith
    | inl f ↦ used-In pm q (first_free-none pm _ pm.min_port q f low high)
  ]
]

-- When `AllocatePort` fails, with no adapter listed twice, each port of the range is held by an
-- adapter, and there are at least as many allocations as ports.
pub allocate_port_full :
    (a : String) (pm : PortManager) (lo hi p : ℕ)
    → IsMap pm.allocated
    → (allocate_port a pm).1 ≡ no_available_ports lo hi
    → pm.min_port ≤ p
    → p ≤ pm.max_port
    → ((b : String) × (lookup b pm.allocated ≡ some p))
      × (suc pm.max_port - pm.min_port ≤ length pm.allocated)
allocate_port_full a pm lo hi p m h low high =
    let used = range_used a pm lo hi h in
    (
      lookup_of-In-values p pm.allocated m (used p low (omega arith)),
      omega (
        arith,
        range-length _ pm.min_port (values pm.allocated) used,
        values-length pm.allocated,
      ),
    )

-- While fewer ports are given out than the range has, with no adapter listed twice, `AllocatePort`
-- succeeds, and the adapter holds the port it answers with.
pub allocate_port_room :
    (a : String) (pm : PortManager)
    → IsMap pm.allocated
    → length pm.allocated < suc pm.max_port - pm.min_port
    → (p : ℕ) × ((allocate_port a pm).1 ≡ port p)
      × (lookup a (allocate_port a pm).0.allocated ≡ some p)
unfolding allocate_port
allocate_port_room a pm m room = elim (Option-cases (lookup a pm.allocated)) [
  | inr (p, e) ↦ rw (allocate_port, e) (p, refl, e)
  | inl e ↦ elim (Option-cases (first_free pm (suc pm.max_port - pm.min_port) pm.min_port)) [
    | inr (p, f) ↦
        rw (allocate_port, e, f)
          (p, refl, lookup-insert a a p pm.allocated ∙ ground (arith, eq_iff a a))
    | inl f ↦
        let full : (allocate_port a pm).1 ≡ no_available_ports pm.min_port pm.max_port =
          rw (allocate_port, e, f) refl in
        let long =
          range-length _ pm.min_port (values pm.allocated)
            (range_used a pm pm.min_port pm.max_port full) in
        absurd (omega (arith, long, room, values-length pm.allocated))
  ]
]
