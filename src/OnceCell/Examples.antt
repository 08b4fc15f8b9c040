-- ===== src/OnceCell/Examples.antt =====
-- Two threads ask one cell for its value, and the theorems along their run.
use valet_parking.Prelude.{ℕ, ◌≤◌, ◌≡◌, ◌≢◌, ◌⊎◌, none, some, false, refl, arith, ℕ_discrete, inl}
use valet_parking.Word.{Target}
use valet_parking.Contract as Waiters
use valet_parking.OnceCell.{panicked, running, complete, access, read}
use valet_parking.OnceCell.System.{
  System, Reach, start, later, call, accessing, reading_cell, writing_cell, storing_calls,
  waiting_calls, inside, storing_returns, waiting_returns,
}
use valet_parking.OnceCell.Offered.{Offered}
use valet_parking.OnceCell.Safety.{touches, writes, once_cell_agrees, once_cell_is_sound}
use valet_parking.OnceCell.Progress.{Finishes}
use valet_parking.OnceCell.Return.{once_cell_returns}
use valet_parking.OnceCell.OnPosix
use valet_parking.OnceCell.Composed.{posix_cell_is_sound}
use valet_parking.OnceCell.Safety.{answer}
use valet_parking.PosixParker.System.{IsAddress}
use valet_parking.PosixWaiters.System as Posix
use valet_parking.WaiterQueue.System as Queue

abbrev sixty_four : Target
sixty_four = record { usize_bytes = 8; big_endian = false }

size : 1 ≤ sixty_four.usize_bytes
size = omega arith

-- Thread 0 is about to write 5 in the cell, and thread 1, which was given 7, is about to wait.
begun : (s : System ℕ) × Reach sixty_four s
unfolding access ℕ_discrete
begun = (
  _,
  later
      (later
        (later
          (later
            (later
              (later (later (later start (call 0 (some 5) _)) (call 1 (some 7) _))
                (accessing 0 0 (refl, λ bare. refl)))
              (accessing 0 0 (refl, λ bare. refl)))
            (accessing 0 0 (refl, λ bare. refl)))
          (accessing 1 (running sixty_four) (refl, λ bare. refl)))
        (accessing 1 (running sixty_four) (refl, λ bare. refl)))
      (accessing 1 (running sixty_four) (refl, λ bare. refl)),
)

-- Thread 1 waits, and thread 0 has called `store_and_wake`.
completed : (s : System ℕ) × Reach sixty_four s
unfolding begun ℕ_discrete
completed = (
  _,
  later
      (later
        (later
          (later begun.1 (waiting_calls 1 refl (Waiters.call_wait 1 (running sixty_four) refl)))
          (writing_cell 0 refl))
        (storing_calls 0 refl (Waiters.call_store 0 (complete sixty_four) refl)))
      (inside (Waiters.store 0 (complete sixty_four) refl)),
)

-- Both have returned.
finished : (s : System ℕ) × Reach sixty_four s
unfolding completed begun access read ℕ_discrete
finished = (
  _,
  later
      (later
        (later
          (later
            (later
              (later
                (later
                  (later
                    (later
                      (later (later completed.1 (storing_returns 0 refl (Waiters.return 0 refl)))
                        (accessing 0 (complete sixty_four) (refl, λ bare. refl)))
                      (accessing 0 (complete sixty_four) (refl, λ bare. refl)))
                    (reading_cell 0))
                  (inside (Waiters.leave 1 refl (inl refl))))
                (waiting_returns 1 refl (Waiters.return 1 refl)))
              (accessing 1 (complete sixty_four) (refl, λ bare. refl)))
            (accessing 1 (complete sixty_four) (refl, λ bare. refl)))
          (accessing 1 (complete sixty_four) (refl, λ bare. refl)))
        (reading_cell 1))
      (reading_cell 1),
)

once_cell_agrees_example :
    (◌≡◌ {A = ℕ} 5 5) × (finished.0.value ≡ some 5) × Offered sixty_four finished.1 5
unfolding finished completed begun access read ℕ_discrete
once_cell_agrees_example = once_cell_agrees sixty_four size 0 1 finished.1 refl refl

once_cell_is_sound_example :
    (begun.0.pc 1 ≢ panicked)
    × ((writes (begun.0.pc 0) ≡ false)
        ⊎ ((begun.0.value ≡ none) × ((◌≡◌ {A = ℕ} 0 1) ⊎ (touches (begun.0.pc 1) ≡ false))))
once_cell_is_sound_example = once_cell_is_sound sixty_four size 0 1 begun.1

once_cell_returns_example : Finishes sixty_four 1 completed.0
unfolding completed begun access ℕ_discrete
once_cell_returns_example = once_cell_returns sixty_four size 1 completed.1 refl

frame : IsAddress sixty_four 128
frame = record { aligned = refl; nonnull = omega arith; fits = omega arith }

-- On the Waiters of Posix, thread 0 has filled the cell and called `store_and_wake`.
on_posix : (s : OnPosix.System ℕ) × OnPosix.Reach sixty_four false s
unfolding access ℕ_discrete
on_posix = (
  _,
  OnPosix.later
      (OnPosix.later
        (OnPosix.later
          (OnPosix.later
            (OnPosix.later (OnPosix.later (OnPosix.start 128 frame) (OnPosix.call 0 (some 5) _))
              (OnPosix.accessing 0))
            (OnPosix.accessing 0))
          (OnPosix.accessing 0))
        (OnPosix.writing_cell 0 refl))
      (OnPosix.storing_calls 0
        (Posix.listing
          (Queue.call_store 0 (complete sixty_four) refl
            (record { word = omega arith; no_reserved = refl }))
          refl (λ k. refl))
        refl refl),
)

posix_cell_is_sound_example :
    (on_posix.0.waiters.queue.faulted ≡ false)
    × ((on_posix.0.waiters.parker 0).faulted ≡ false)
    × (on_posix.0.pc 0 ≢ panicked)
    × ((answer (on_posix.0.pc 0) ≡ none) ⊎ (answer (on_posix.0.pc 0) ≡ on_posix.0.value))
    × ((writes (on_posix.0.pc 0) ≡ false)
        ⊎ ((on_posix.0.value ≡ none) × ((◌≡◌ {A = ℕ} 0 0) ⊎ (touches (on_posix.0.pc 0) ≡ false))))
posix_cell_is_sound_example = posix_cell_is_sound sixty_four size false 0 0 on_posix.1
