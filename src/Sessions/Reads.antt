-- ===== src/Sessions/Reads.antt =====
-- What the reads of `InMemorySessionStore` (pkg/session/store.go) show after its writes.
use suse_ai_up.Prelude.{
  String, ℕ, Bool, true, ◌+◌, ◌==◌, ◌≡◌, ◌↔◌, List, [], ◌∷◌, if◌then◌else◌, values, keep,
  delete_where, lookup-delete_where, In, In-values_of-lookup, lookup_of-In-values, Bool-cases, inl,
  inr, arith, refl, eq_iff, ltb,
}
use suse_ai_up.Sessions.{
  SessionDetails, Store, Result, ok, err, session_not_found, get_details, list_by_adapter,
  delete_by_adapter, cleanup_expired,
}
use suse_ai_up.Sessions.Invariant.{IsValid}

module _ {A : Type 0} (p : A → Bool) where
  In-keep : (x : A) (xs : List A) → In x (keep p xs) → In x xs × (p x ≡ true)
  In-keep x [] i = absurd i
  In-keep x (y ∷ ys) i = elim (Bool-cases (p y)) [
    | inl e ↦ elim (rw e at i) as (λ _. In x (y ∷ ys) × (p x ≡ true)) [
      | inl q ↦ (inl q, rw (← q) e)
      | inr j ↦ let (k, h) = In-keep x ys j in (inr k, h)
    ]
    | inr e ↦ let (k, h) = In-keep x ys (rw e at i) in (inr k, h)
  ]

  keep-In : (x : A) (xs : List A) → In x xs → p x ≡ true → In x (keep p xs)
  keep-In x [] i h = absurd i
  keep-In x (y ∷ ys) (inl e) h = rw (e, h) (inl refl)
  keep-In x (y ∷ ys) (inr i) h = elim (Bool-cases (p y)) [
    | inl e ↦ rw e (inr (keep-In x ys i h))
    | inr e ↦ rw e (keep-In x ys i h)
  ]

module _ {C : Type 0} where
  -- In a valid store (no ID twice, each session under its own ID), `ListByAdapter` returns exactly
  -- the stored sessions of the adapter.
  pub list_by_adapter_iff :
      (adapter : String) (d : SessionDetails C) (s : Store C)
      → IsValid s
      → In d (list_by_adapter adapter s)
        ↔ ((id : String) × (get_details id s ≡ ok d) × (d.adapter_name ≡ adapter))
  unfolding list_by_adapter get_details
  list_by_adapter_iff adapter d s v = (
    λ i.
        let (j, h) = In-keep (λ d'. d'.adapter_name == adapter) d (values s.sessions) i in
        let (id, found) = lookup_of-In-values d s.sessions v.map j in
        (id, rw (found, get_details), (eq_iff d.adapter_name adapter).0 h),
    λ t.
        keep-In (λ d'. d'.adapter_name == adapter) d (values s.sessions)
          (In-values_of-lookup t.0 d s.sessions (let e = t.1 in ground arith))
          ((eq_iff d.adapter_name adapter).1 t.2),
  )

  -- What a filtered deletion leaves at an ID.
  abbrev pub unless :
      (SessionDetails C → Bool) → Result (SessionDetails C) → String → Result (SessionDetails C)
  unless p (err e) id = err e
  unless p (ok d) id = if p d then err (session_not_found id) else ok d

  get_details-delete_where :
      (p : SessionDetails C → Bool) (id : String) (s : Store C)
      → IsValid s
      → get_details id (record s { sessions = delete_where (λ _ d. p d) s.sessions })
        ≡ unless p (get_details id s) id
  unfolding get_details
  get_details-delete_where p id s v =
      ground (arith, lookup-delete_where (λ _ d. p d) id s.sessions v.map)

  -- In a valid store, after `DeleteByAdapter` a session of that adapter is not found, and any
  -- other is as before.
  pub get_details-delete_by_adapter :
      (adapter id : String) (s : Store C)
      → IsValid s
      → get_details id (delete_by_adapter adapter s)
        ≡ unless (λ d. d.adapter_name == adapter) (get_details id s) id
  unfolding delete_by_adapter
  get_details-delete_by_adapter adapter id s v = get_details-delete_where _ id s v

  -- In a valid store, `CleanupExpired` drops exactly the sessions whose last activity is more than
  -- `max_age` ago.
  pub get_details-cleanup_expired :
      (now max_age : ℕ) (id : String) (s : Store C)
      → IsValid s
      → get_details id (cleanup_expired now max_age s)
        ≡ unless (λ d. ltb (d.last_activity + max_age) now) (get_details id s) id
  unfolding cleanup_expired
  get_details-cleanup_expired now max_age id s v = get_details-delete_where _ id s v
