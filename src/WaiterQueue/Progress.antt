-- ===== src/WaiterQueue/Progress.antt =====
-- `store_and_wake` ends, and wakes every thread whose node it has taken; that thread then returns.
use valet_parking.Prelude.{
  ℕ, ◌≤◌, ◌≡◌, ◌≢◌, inl, inr, true, false, List, [], ◌∷◌, refl, sym, ap, ◌∙◌, arith,
}
use valet_parking.Word.{Target}
use valet_parking.WaiterQueue.{
  Pc, outside, waiting, reloading, walking, unparking, pub_bits, compare_and_wait,
}
use valet_parking.WaiterQueue.System.{
  System, comparing, returns, Reach, Run, done, next, moves, compares,
}
use valet_parking.WaiterQueue.Chain.{Owner, held, Place, size, Listed, Linked}
use valet_parking.WaiterQueue.Invariant.{Inv, Holds}
use valet_parking.WaiterQueue.Steps.{Reach-Inv}
use valet_parking.WaiterQueue.Safety.{Reaches, here, there, Walks, no_lost_waiter}
use valet_parking.WaiterQueue.Woken.{Waits, Unparked, Holds-Woken}

-- The threads that the pointers lead to are those of the list.
Reaches-Listed :
    {t : Target} {s : System} (inv : Inv t s) (o : Owner) (i p : ℕ) (is : List ℕ)
    → Linked s.pc inv.place o p is
    → Reaches s.pc i p
    → Listed i is
Reaches-Listed inv o i p [] l (here e n positive w) = absurd (omega arith)
Reaches-Listed inv o i p [] l (there h e n positive w r) = absurd (omega arith)
Reaches-Listed {s = s} inv o i p (k ∷ ks) (node, l) (here e n positive w) =
    inl (inv.apart i k p (rw w refl) (rw node.waits refl))
Reaches-Listed inv o i p (k ∷ ks) (node, l) (there h e n positive w r) =
    let same : k ≡ h = inv.apart k h p (rw node.waits refl) (rw w refl) in
    let same_next : node.next ≡ n = ground (arith, node.waits) in
    inr (Reaches-Listed inv o i n ks (rw same_next at l) r)

Holds-Linked :
    (pcs : ℕ → Pc) (place : ℕ → Place) (j p : ℕ) (pc : Pc) (is : List ℕ)
    → Holds pcs place j pc is
    → Walks pc p
    → Linked pcs place (held j) p is
Holds-Linked pcs place j p (walking q) is h x = rw (sym x) h
Holds-Linked pcs place j p (unparking q n) [] h x = absurd h
Holds-Linked pcs place j p (unparking q n) (k ∷ ks) (node, same, l) x = rw (sym x) (node, rw same l)
Holds-Linked pcs place j p pc is h x = absurd (ground (arith, x))

-- From every reachable state in which a thread is in the loop of store_and_wake, the steps of the
-- calls under way lead to a state in which that call has returned, every waiter that its pointer
-- leads to has been unparked, and the atomic is as it was.
pub store_and_wake-Completes :
    (t : Target) (size : 1 ≤ t.usize_bytes) {s : System} (j p : ℕ)
    → Reach t s
    → Walks (s.pc j) p
    → (u : System) × Run t s u
      × (u.pc j ≡ outside)
      × ((i e : ℕ) → Reaches s.pc i p → Waits e (s.pc i) → Unparked e (u.pc i))
      × (u.atomic ≡ s.atomic)
store_and_wake-Completes t size {s} j p r x =
    let inv = Reach-Inv t size r in
    let is = inv.chain (held j) in
    let end = Holds-Woken t inv.place is j p (s.pc j) refl x (inv.holds j) in
    let l = Holds-Linked s.pc inv.place j p (s.pc j) is (inv.holds j) x in
    (
      end.last,
      end.run,
      end.out,
      λ i e reached. end.woken i e (Reaches-Listed inv (held j) i p is l reached),
      end.atomic,
    )

then-Run : {t : Target} {s u v : System} → Run t s u → Run t u v → Run t s v
then-Run (done s) run = run
then-Run (next o first_run) run = next o (then-Run first_run run)

Unparked-waiting : (e : ℕ) (pc : Pc) → Unparked e pc → (p : ℕ) × (n : ℕ) × (pc ≡ waiting e p n true)
Unparked-waiting e (waiting f p n true) x = (p, n, ap (λ (g : ℕ). waiting g p n true) x)
Unparked-waiting e pc x = absurd (ground (arith, x))

-- A thread that has been unparked, and waits for another value than there is, returns.
pub unparked-returns :
    (t : Target) {s : System} (i e : ℕ)
    → Unparked e (s.pc i)
    → e ≢ pub_bits t s.atomic
    → (u : System) × Run t s u × (u.pc i ≡ outside)
unfolding compare_and_wait
unparked-returns t {s} i e x other =
    let (p, n, w) = Unparked-waiting e (s.pc i) x in
    (
      compares t (compares t woken_up i 0) i 0,
      next (returns i w) (
          next (comparing i 0 (λ h. absurd (ground (arith, h))))
            (next (comparing i 0 (λ h. absurd (ground (arith, h)))) (done _))),
      ground arith,
    )
  where
    woken_up : System
    woken_up = moves s i (reloading e)

pub waiter_returns :
    (t : Target) (size : 1 ≤ t.usize_bytes) {s : System} (i : ℕ) {e p n : ℕ}
    → Reach t s
    → s.pc i ≡ waiting e p n false
    → e ≢ pub_bits t s.atomic
    → (u : System) × Run t s u × (u.pc i ≡ outside)
waiter_returns t size {s} i {e} {p} {n} r w other = elim (no_lost_waiter t size i r w) [
  | inl (same, _) ↦ absurd (other same)
  | inr (j, q, walks, reached) ↦
      let (u, run, out, woken, same_word) = store_and_wake-Completes t size j q r walks in
      let (v, last_run, returned) =
        unparked-returns t {s = u} i e (woken i e reached (rw w refl))
          (λ x. other (x ∙ ap (pub_bits t) same_word)) in
      (v, then-Run run last_run, returned)
]
