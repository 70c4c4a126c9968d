-- ===== src/Core/Session/Events.antt =====
-- Events of a session.
use conpot.Prelude.{
  ℕ, zero, suc, ◌+◌, ◌-◌, ◌≤◌, ◌<◌, ◌≡◌, refl, ap, ◌∙◌, ◌≢◌, true, false, Bool-cases, inl, inr,
  some, List, [], ◌∷◌, ◌++◌, arith, length, ◌==◌, get_elem?, if◌then◌else◌, nat_eq,
}
use conpot.Prelude.Dict.{Dict, get, has, get-put, length-put_new}
use conpot.Core.Session.{
  AttackSession, SessionManager, Dump, free_slot, key_bound, dump_event, put_on, add_event,
  purge_sessions,
}

module _ {E : Type 0} where
  has-lt : (k : ℕ) (events : Dict ℕ E) → has k events ≡ true → k < key_bound events
  unfolding has key_bound
  has-lt k [] h = cc
  has-lt k ((j, v) ∷ events) h = ground (arith, has-lt k events)

  -- With fuel that passes every key, the loop ends at a key that is free.
  free_slot-free :
      (fuel elapse_ms : ℕ) (events : Dict ℕ E)
      → key_bound events ≤ elapse_ms + fuel
      → has (free_slot fuel elapse_ms events) events ≡ false
  unfolding free_slot
  free_slot-free zero elapse_ms events h = elim (Bool-cases (has elapse_ms events)) [
    | inl taken ↦ absurd (omega (arith, has-lt elapse_ms events taken))
    | inr free ↦ free
  ]
  free_slot-free (suc fuel) elapse_ms events h =
      ground (arith, free_slot-free fuel (elapse_ms + 1) events)

  free_slot-le :
      (fuel elapse_ms : ℕ) (events : Dict ℕ E) → elapse_ms ≤ free_slot fuel elapse_ms events
  unfolding free_slot
  free_slot-le zero elapse_ms events = omega arith
  free_slot-le (suc fuel) elapse_ms events =
      ground (arith, free_slot-le fuel (elapse_ms + 1) events)

  -- An event is kept under a key that was free, at its time or after it: the session has one event
  -- more, and under every other key what it had before.
  pub add_event-keeps :
      (event : E) (now : ℕ) (s : AttackSession E) (queues : List (List (Dump E))) (k : ℕ)
      → (slot : ℕ) × (now - s.timestamp ≤ slot)
        × (has slot s.events ≡ false)
        × (length (add_event event now s queues).0.events ≡ length s.events + 1)
        × (get k (add_event event now s queues).0.events
            ≡ (if slot == k then some event else get k s.events))
  unfolding add_event
  add_event-keeps event now s queues k =
      let slot = free_slot (key_bound s.events) (now - s.timestamp) s.events in
      let free : has slot s.events ≡ false =
        free_slot-free (key_bound s.events) (now - s.timestamp) s.events (omega arith) in
      (
        slot,
        free_slot-le (key_bound s.events) (now - s.timestamp) s.events,
        free,
        length-put_new slot event s.events free,
        get-put slot k event s.events,
      )

  get_elem?-put_on_ne :
      (queues : List (List (Dump E))) (i j : ℕ) (x : Dump E)
      → i ≢ j
      → get_elem? (put_on queues i x) j ≡ get_elem? queues j
  unfolding put_on
  get_elem?-put_on_ne [] i j x h = refl
  get_elem?-put_on_ne (r ∷ queues) zero zero x h = absurd (h refl)
  get_elem?-put_on_ne (r ∷ queues) zero (suc j) x h = refl
  get_elem?-put_on_ne (r ∷ queues) (suc i) zero x h = refl
  get_elem?-put_on_ne (r ∷ queues) (suc i) (suc j) x h =
      get_elem?-put_on_ne queues i j x (λ e. h (ap suc e))

  get_elem?-snoc :
      (queues : List (List (Dump E))) (q : List (Dump E))
      → get_elem? (queues ++ q ∷ []) (length queues) ≡ some q
  get_elem?-snoc [] q = refl
  get_elem?-snoc (r ∷ queues) q = get_elem?-snoc queues q

  get_elem?-put_on_self :
      (queues : List (List (Dump E))) (i : ℕ) (x : Dump E) (q : List (Dump E))
      → get_elem? queues i ≡ some q
      → get_elem? (put_on queues i x) i ≡ some (q ++ x ∷ [])
  unfolding put_on
  get_elem?-put_on_self [] i x q h = cc
  get_elem?-put_on_self (r ∷ queues) zero x q h =
      let r≡q : r ≡ q = (cc) in ap (λ (t : List (Dump E)). some (t ++ x ∷ [])) r≡q
  get_elem?-put_on_self (r ∷ queues) (suc i) x q h = get_elem?-put_on_self queues i x q h

  get_elem?-append :
      (queues more : List (List (Dump E))) (i : ℕ) (q : List (Dump E))
      → get_elem? queues i ≡ some q
      → get_elem? (queues ++ more) i ≡ some q
  get_elem?-append [] more i q h = cc
  get_elem?-append (r ∷ queues) more zero q h = h
  get_elem?-append (r ∷ queues) more (suc i) q h = get_elem?-append queues more i q h

  get_elem?-lt :
      (queues : List (List (Dump E))) (i : ℕ) (q : List (Dump E))
      → get_elem? queues i ≡ some q
      → i < length queues
  get_elem?-lt [] i q h = cc
  get_elem?-lt (r ∷ queues) zero q h = omega arith
  get_elem?-lt (r ∷ queues) (suc i) q h = omega (arith, get_elem?-lt queues i q h)

  -- After a purge the manager's queue is empty, and stays so whatever a session that the manager had
  -- before is told: its event is put at the end of the queue that the session has had all along.
  pub add_event-purge_sessions :
      (event : E) (now : ℕ) (s : AttackSession E) (m : SessionManager E) (q : List (Dump E))
      → get_elem? m.queues s.log_queue ≡ some q
      → let p = purge_sessions m in
        (get_elem? (add_event event now s p.queues).1 p.log_queue ≡ some [])
        × (get_elem? (add_event event now s p.queues).1 s.log_queue
            ≡ some (q ++ dump_event event s ∷ []))
  unfolding add_event purge_sessions
  add_event-purge_sessions event now s m q h =
      let before = get_elem?-lt m.queues s.log_queue q h in
      (
        get_elem?-put_on_ne (m.queues ++ [] ∷ []) s.log_queue (length m.queues) (dump_event event s)
              (λ e. omega arith)
            ∙ get_elem?-snoc m.queues [],
        get_elem?-put_on_self (m.queues ++ [] ∷ []) s.log_queue (dump_event event s) q
            (get_elem?-append m.queues ([] ∷ []) s.log_queue q h),
      )
