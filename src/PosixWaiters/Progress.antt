-- ===== src/PosixWaiters/Progress.antt =====
-- What the calls under way do in the list, they do with its Parkers.
use valet_parking.Prelude.{
  ℕ, ◌%◌, ◌≤◌, ◌≡◌, ◌≢◌, ◌⊎◌, Bool, true, false, ◌==◌, refl, arith, inl, inr, ap, ◌∙◌, Bool-cases,
}
use valet_parking.Prelude.Family.{update, update_elim, update_same}
use valet_parking.Word.{Target}
use valet_parking.WaiterQueue.{
  Pc, outside, trying, waiting, reloading, walking, unparking, pub_bits, first, compare_and_wait,
  unpark,
}
use valet_parking.WaiterQueue.System as Queue
use valet_parking.WaiterQueue.System.{HasNode, IsNode}
use valet_parking.WaiterQueue.Progress.{waiter_returns, unparked-returns}
use valet_parking.PosixParker.{is_outside}
use valet_parking.PosixParker.System as Parker
use valet_parking.PosixWaiters.System.{
  System, parked_at, has_node, uses_parker_own, Step, listing, enters, unparks, returns, Reach,
}
use valet_parking.PosixWaiters.Parking.{outside_lem}
use valet_parking.PosixWaiters.Invariant.{Inv, Step-Inv, Reach-Fits}
use valet_parking.Contract.Agreement.{update_there}
use valet_parking.PosixWaiters.Safety.{parker-Inv}
use valet_parking.PosixWaiters.Running.{
  IsQuiet, Run, done, next, then-Run, Run-Inv, park_ends, unpark_ends,
}
use valet_parking.PosixWaiters.Settling.{settles_lem}

module _ (t : Target) (node word : ℕ) where
  -- An access makes no node, or one at `node`, or it is none.
  abbrev Makes : Pc → Type 0
  Makes pc =
      (has_node (compare_and_wait t node word pc).pc ≡ false)
      ⊎ (HasNode (compare_and_wait t node word pc).pc node)
      ⊎ (compare_and_wait t node word pc ≡ record { atomic = word; pc = pc })

  comparing-Makes : (pc : Pc) → Makes pc
  unfolding compare_and_wait
  comparing-Makes (trying e c) = elim (Bool-cases (pub_bits t c == e)) [
    | inl same ↦ elim (Bool-cases (word == c)) [
      | inl current ↦
          let p' : (compare_and_wait t node word (trying e c)).pc
              ≡ waiting e node (first t c) false =
            ground arith in
          inr (inl (rw p' refl))
      | inr changed ↦ inl (ground arith)
    ]
    | inr other ↦ inl (ground arith)
  ]
  comparing-Makes (waiting e p n u) = inr (inr refl)
  comparing-Makes pc = inl refl

module _ (t : Target) (size : 1 ≤ t.usize_bytes) (debug : Bool) where
  -- A run to a state in which the list is here, and no thread is in `unpark`.
  abbrev pub MakesUp : System → Queue.System → Type 0
  MakesUp s q =
      (parker : ℕ → Parker.System) × Run t debug s (record { queue = q; parker = parker })
      × ((k : ℕ) → IsQuiet (parker k))

  module _ {s : System} (inv : Inv t debug s) (quiet : (k : ℕ) → IsQuiet (s.parker k)) where
    alone :
        {q : Queue.System} (own : Queue.Own t s.queue q)
        → uses_parker_own t own ≡ false
        → MakesUp s q
    alone own e = (s.parker, next (listing (Queue.own own) e (λ k. quiet k _)) refl (done _), quiet)

    making :
        (i node : ℕ)
        → (made : HasNode (compare_and_wait t node s.queue.atomic (s.queue.pc i)).pc node
            → IsNode t node × ((k : ℕ) → HasNode (s.queue.pc k) node → ⊥))
        → Makes t node s.queue.atomic (s.queue.pc i)
        → MakesUp s (Queue.compares t s.queue i node)
    making i node made (inl none_made) = alone (Queue.comparing i node made) none_made
    making i node made (inr (inl new)) = (
      _,
      next
          (enters i node (s.parker i).addr (made new) new (parker-Inv t size debug i inv).address
            (λ k. quiet k i))
          refl (done _),
      λ k.
          update_elim IsQuiet s.parker i (parked_at (s.parker i).addr) k (λ same j. refl)
            (λ other. quiet k),
    )
    making i node made (inr (inr same)) =
        rw same (rw (update_same s.queue.pc i) (s.parker, done s, quiet))

    -- `park` returns in an unparked thread.
    leaving :
        (i : ℕ) {e p n : ℕ}
        → s.queue.pc i ≡ waiting e p n true
        → MakesUp s (Queue.moves s.queue i (reloading e))
    leaving i {e} {p} {n} w = elim (Bool-cases (is_outside (s.parker i).parker)) [
      | inl out ↦ (s.parker, next (returns i w (outside_lem _ out)) refl (done _), quiet)
      | inr inside ↦
          let odd : (s.parker i).atomic % 2 ≡ 1 = elim (rw w at (inv.linked i)) [
            | inl here ↦ here
            | inr out ↦ absurd (ground arith)
          ] in
          let (r, run, out, here) = park_ends t size debug i inv odd inside in
          (
            update s.parker i r,
            then-Run t debug run (
                next (returns i w (ap (λ x. x.parker) (update_there s.parker i r) ∙ out)) refl
                  (done _)),
            λ k. update_elim IsQuiet s.parker i r k (λ same. here) (λ other. quiet k),
          )
    ]

    -- `unpark` runs to its end.
    unparking_ends :
        (i k : ℕ) {p e m n : ℕ} {unparked : Bool}
        → (w : s.queue.pc i ≡ unparking p n) → (f : s.queue.pc k ≡ waiting e p m unparked)
        → MakesUp s (record s.queue {
          pc = update (update s.queue.pc k (unpark (s.queue.pc k))) i (walking n);
        })
    unparking_ends i k {p} {e} {m} {n} w f =
        let step : Step t debug s _ = unparks i k w f (λ j. quiet j i) in
        let (r, run, here) = unpark_ends t size debug k (Step-Inv t size debug step inv) in
        (
          _,
          next step refl run,
          λ j.
              update_elim IsQuiet (update s.parker k _) k r j (λ same. here)
                (λ other.
                  update_elim IsQuiet s.parker k _ j (λ same. absurd (other same)) (λ _. quiet j)),
        )

    Own-MakesUp : {q : Queue.System} → Queue.Own t s.queue q → MakesUp s q
    Own-MakesUp (Queue.comparing i node made) =
        making i node made (comparing-Makes t node s.queue.atomic (s.queue.pc i))
    Own-MakesUp (Queue.returns i w) = leaving i w
    Own-MakesUp (Queue.storing i) = alone (Queue.storing i) refl
    Own-MakesUp (Queue.reads i k w f positive) = alone (Queue.reads i k w f positive) refl
    Own-MakesUp (Queue.ends i w) = alone (Queue.ends i w) refl
    Own-MakesUp (Queue.unparks i k w f) = unparking_ends i k w f

  Run-MakesUp :
      {q r : Queue.System}
      → Queue.Run t q r
      → (parker : ℕ → Parker.System) → Inv t debug (record { queue = q; parker = parker })
      → ((k : ℕ) → IsQuiet (parker k))
      → MakesUp (record { queue = q; parker = parker }) r
  Run-MakesUp (Queue.done q) parker inv quiet = (parker, done _, quiet)
  Run-MakesUp (Queue.next own rest) parker inv quiet =
      let (parker', run, quiet') = Own-MakesUp inv quiet own in
      let (parker'', later, all) = Run-MakesUp rest parker' (Run-Inv t debug size run inv) quiet' in
      (parker'', then-Run t debug run later, all)

  -- From every reachable state of the Waiters on Posix, every run of calls under way that the
  -- list can make, with park and unpark taken as single steps, can be made with the Parkers that
  -- are in the nodes, by the steps of the calls under way and without a spurious wakeup, to the
  -- same state of the list.
  pub list_runs_complete :
      {s : System} {q : Queue.System}
      → Reach t debug s
      → Queue.Run t s.queue q
      → (u : System) × Run t debug s u × (u.queue ≡ q)
  list_runs_complete {s} {q} r run =
      let inv = Reach-Fits t size debug r in
      let (parker, first_run, quiet) = settles_lem t size debug r inv in
      let (parker', rest, _) = Run-MakesUp run parker (Run-Inv t debug size first_run inv) quiet in
      (record { queue = q; parker = parker' }, then-Run t debug first_run rest, refl)

  -- In every reachable state of the Waiters on Posix, if a thread waits in its node for a value
  -- that the public bits of the atomic no longer are, whether it has been unparked or not, the
  -- steps of the calls under way, pthread calls included and without a spurious wakeup, lead to a
  -- state in which its compare_and_wait has returned.
  pub posix_waiter_returns :
      {s : System} (i : ℕ) {e p n : ℕ} (unparked : Bool)
      → Reach t debug s
      → s.queue.pc i ≡ waiting e p n unparked
      → e ≢ pub_bits t s.queue.atomic
      → (u : System) × Run t debug s u × (u.queue.pc i ≡ outside)
  posix_waiter_returns i false r w other =
      let (q, run, out) = waiter_returns t size i (Reach-Fits t size debug r).queue w other in
      let (u, whole, same) = list_runs_complete r run in (u, whole, ap (λ q. q.pc i) same ∙ out)
  posix_waiter_returns i {e} true r w other =
      let (q, run, out) = unparked-returns t i e (rw w refl) other in
      let (u, whole, same) = list_runs_complete r run in (u, whole, ap (λ q. q.pc i) same ∙ out)
