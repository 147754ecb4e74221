-- ===== src/Discovery/Locks/Invariant.antt =====
-- The invariant of the lock of the discovery store (pkg/scanner/discovery_store.go).
use suse_ai_up.Prelude.{
  String, ℕ, true, [], Option, none, some, ◌≡◌, ◌≢◌, refl, sym, ap, subst, nat_eq, Bool-cases,
  nat_eq_iff, inl, inr, ◌∙◌, lookup, delete_where,
}
use suse_ai_up.Discovery.{update_last_seen, remove_stale, delete_server, clear}
use suse_ai_up.Discovery.Locks.{
  Call, save_call, update_call, stale_call, delete_call, clear_call, read_call, Place, outside,
  waiting, inside, finding, found, probing, State, start, move, writes, effect, entered, Step,
  call_step, nil_step, lock_step, unlock_step, read_lock_step, read_unlock_step, find_step,
  merge_step, new_step, taken_step, probe_step, free_step, Reach, here, next,
}

module _ {J : Type 0} where
  -- A goroutine may be at the place while `writer` holds the lock: the one that writes holds it, and
  -- no `Save` is behind `FindByFingerprint`.
  unfoldable pub Fits : Option ℕ → ℕ → Place J → Type 0
  Fits writer t outside = Unit
  Fits writer t (waiting _) = Unit
  Fits writer t (inside call) = writes call ≡ true → writer ≡ some t
  Fits writer t (finding _) = writer ≡ some t
  Fits writer t (found _) = ⊥
  Fits writer t (probing _ _) = ⊥

  pub record IsLocked (c : State J) : Type 0 where
    pub empty : c.servers ≡ []
    pub fits : (t : ℕ) → Fits c.writer t (c.places t)

  Fits-move :
      (writer : Option ℕ) (t : ℕ) (place : Place J) (places : ℕ → Place J)
      → Fits writer t place
      → ((u : ℕ) → u ≢ t → Fits writer u (places u))
      → (u : ℕ) → Fits writer u (move t place places u)
  unfolding move
  Fits-move writer t place places own others u = elim (Bool-cases (nat_eq u t)) [
    | inl e ↦ rw e (subst (λ v. Fits writer v place) (sym ((nat_eq_iff u t).0 e)) own)
    | inr n ↦ rw n (others u (λ e. cc (n, (nat_eq_iff u t).1 e)))
  ]

  Fits-of_none :
      (writer : Option ℕ) (u : ℕ) (place : Place J) → Fits none u place → Fits writer u place
  unfolding Fits
  Fits-of_none writer u outside h = h
  Fits-of_none writer u (waiting c) h = h
  Fits-of_none writer u (inside c) h = λ w. absurd (cc (h w))
  Fits-of_none writer u (finding v) h = absurd (cc h)
  Fits-of_none writer u (found v) h = absurd h
  Fits-of_none writer u (probing v n) h = absurd h

  released-Fits : (t u : ℕ) (place : Place J) → u ≢ t → Fits (some t) u place → Fits none u place
  unfolding Fits
  released-Fits t u outside n h = h
  released-Fits t u (waiting c) n h = h
  released-Fits t u (inside c) n h = λ w. absurd (n (cc (h w)))
  released-Fits t u (finding v) n h = absurd (n cc)
  released-Fits t u (found v) n h = absurd h
  released-Fits t u (probing v k) n h = absurd h

  entered-Fits : (now t : ℕ) (call : Call J) → Fits (some t) t (entered now call)
  unfolding Fits entered
  entered-Fits now t (save_call none) = tt
  entered-Fits now t (save_call (some server)) = refl
  entered-Fits now t (update_call id at) = λ _. refl
  entered-Fits now t (stale_call at threshold) = λ _. refl
  entered-Fits now t (delete_call id) = λ _. refl
  entered-Fits now t clear_call = λ _. refl
  entered-Fits now t read_call = λ _. refl

  effect-empty : (call : Call J) → effect call [] ≡ []
  unfolding effect update_last_seen remove_stale delete_server clear lookup delete_where
  effect-empty (save_call server) = refl
  effect-empty (update_call id at) = refl
  effect-empty (stale_call at threshold) = refl
  effect-empty (delete_call id) = refl
  effect-empty clear_call = refl
  effect-empty read_call = refl

  module _ (digest : J → String) (print : ℕ → String) where
    -- A goroutine that keeps the lock for itself, and the others.
    Step-IsLocked : (t : ℕ) (c d : State J) → IsLocked c → Step digest print t c d → IsLocked d
    unfolding Fits writes
    Step-IsLocked t c d h (call_step call at e) = subst IsLocked (sym e) (record {
      empty = h.empty;
      fits = Fits-move c.writer t (waiting call) c.places tt (λ u _. h.fits u);
    })
    Step-IsLocked t c d h (nil_step at e) = subst IsLocked (sym e) (record {
      empty = h.empty;
      fits = Fits-move c.writer t outside c.places tt (λ u _. h.fits u);
    })
    Step-IsLocked t c d h (lock_step now call at real w free z e) = subst IsLocked (sym e) (record {
      empty = h.empty;
      fits = Fits-move (some t) t (entered now call) c.places (entered-Fits now t call) (λ u _.
          Fits-of_none (some t) u (c.places u)
            (subst (λ o. Fits o u (c.places u)) free (h.fits u)));
    })
    Step-IsLocked t c d h (unlock_step call at w e) =
        let own : c.writer ≡ some t = subst (Fits c.writer t) at (h.fits t) w in
        subst IsLocked (sym e) (record {
          empty = ap (effect call) h.empty ∙ effect-empty call;
          fits = Fits-move none t outside c.places tt (λ u n.
              released-Fits t u (c.places u) n (subst (λ o. Fits o u (c.places u)) own (h.fits u)));
        })
    Step-IsLocked t c d h (read_lock_step at free e) = subst IsLocked (sym e) (record {
      empty = h.empty;
      fits =
          Fits-move c.writer t (inside read_call) c.places (λ w. absurd (cc w)) (λ u _. h.fits u);
    })
    Step-IsLocked t c d h (read_unlock_step at e) = subst IsLocked (sym e) (record {
      empty = h.empty;
      fits = Fits-move c.writer t outside c.places tt (λ u _. h.fits u);
    })
    Step-IsLocked t c d h (find_step server at free e) =
        let own : c.writer ≡ some t = subst (Fits c.writer t) at (h.fits t) in absurd cc
    Step-IsLocked t c d h (merge_step server existing at f e) =
        absurd (subst (Fits c.writer t) at (h.fits t))
    Step-IsLocked t c d h (new_step server at f l e) =
        absurd (subst (Fits c.writer t) at (h.fits t))
    Step-IsLocked t c d h (taken_step server holder at f l e) =
        absurd (subst (Fits c.writer t) at (h.fits t))
    Step-IsLocked t c d h (probe_step server holder counter at l e) =
        absurd (subst (Fits c.writer t) at (h.fits t))
    Step-IsLocked t c d h (free_step server counter at l e) =
        absurd (subst (Fits c.writer t) at (h.fits t))

    start-IsLocked : IsLocked (start {J = J})
    unfolding Fits
    start-IsLocked = record { empty = refl; fits = λ _. tt }

    pub Reach-IsLocked : (c : State J) → Reach digest print start c → IsLocked c
    Reach-IsLocked c here = start-IsLocked
    Reach-IsLocked c (next {d} t r s) = Step-IsLocked t d c (Reach-IsLocked d r) s

    pub Reach-trans :
        (a b c : State J) → Reach digest print a b → Reach digest print b c → Reach digest print a c
    Reach-trans a b c r here = r
    Reach-trans a b c r (next {d} t s e) = next t (Reach-trans a b d r s) e
