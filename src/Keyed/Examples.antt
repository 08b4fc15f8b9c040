-- ===== src/Keyed/Examples.antt =====
-- Runs of waiting and waking threads over keyed events, and the theorems at their ends.
use valet_parking.Prelude.{
  ℕ, ◌-◌, ◌^◌, ◌≡◌, ◌≢◌, ◌≤◌, ◌↔◌, bit_and, Bool, true, false, some, arith, refl, ℕ_discrete,
}
use valet_parking.Prelude.Count.{count}
use valet_parking.Word.{Target, u32_max}
use valet_parking.Reserved.{reserved_mask}
use valet_parking.Timeout.Duration.{Duration, rounded, forever}
use valet_parking.Timeout.Signed.{convert_timeout_100ns}
use valet_parking.Futex.{timed_out, ok}
use valet_parking.Keyed.{Api, wait_for_keyed_event}
use valet_parking.Keyed.Reason.{windows_reports_timeout}
use valet_parking.Futex.Windows
use valet_parking.Timeout.Counted.{windows_convert_timeout_ms}
use valet_parking.Keyed.Parker
use valet_parking.Keyed.Parker.System
use valet_parking.Keyed.Parker.Safety.{Completes, notified_keyed_park_returns}
use valet_parking.Keyed.Parker.Missed.{IsMissed, missed_park_never_returns}
use valet_parking.Contract.Parker.{Event as Told, Traced}
use valet_parking.Keyed.Parker.Refinement.{
  Runs as Traces, begin as begun, go as follow, view, keyed_parker_refines_contract,
}
use valet_parking.Keyed.Waiters
use valet_parking.Keyed.Waiters.{pub_bits}
use valet_parking.Keyed.Waiters.System as Many
use valet_parking.Keyed.Waiters.Invariant.{Waits}
use valet_parking.Prelude.{List}
use valet_parking.Contract.{Event}
use valet_parking.Keyed.Waiters.Agreement.{Runs, begin, go, Allowed}
use valet_parking.Keyed.Waiters.Refinement.{keyed_refines_contract}
use valet_parking.Keyed.Waiters.Safety.{keyed_counter_is_exact}

-- The thread is before its wait, and thread 0 has notified it and is in its release.
notified : (late : Bool) → (s : System.System) × System.Reach late s
unfolding Parker.park Parker.unpark ℕ_discrete
notified late = (
  _,
  System.later
      (System.later (System.later System.start (System.quiet (System.call_park false refl)))
        (System.quiet (System.own System.parking)))
      (System.quiet (System.call_unpark 0 refl)),
)

notified_keyed_park_returns_example : Completes (notified false).0
unfolding notified
notified_keyed_park_returns_example = notified_keyed_park_returns (notified false).1 refl (λ e. cc)

-- The release has timed out before the thread waits.
lost : (s : System.System) × System.Reach true s
unfolding notified ℕ_discrete Parker.park
lost = (
  _,
  System.later (System.later (notified true).1 (System.quiet (System.gives_up 0 refl refl)))
      (System.quiet (System.own System.parking)),
)

lost-IsMissed : IsMissed lost.0 false
unfolding lost
lost-IsMissed = record { waits = refl; told = refl; nobody = λ i x. ground (arith, x) }

later_on : (u : System.System) × System.QuietRun lost.0 u
unfolding lost Parker.unpark ℕ_discrete
later_on = (_, System.go (System.call_unpark 1 refl) (System.halt _))

missed_park_never_returns_example : later_on.0.parker ≡ Parker.blocked false
missed_park_never_returns_example = missed_park_never_returns false lost-IsMissed later_on.1

abbrev target : Target
target = record { usize_bytes = 8; big_endian = false }

size : 1 ≤ target.usize_bytes
size = omega arith

-- Thread 0 waits for 0. Thread 1 has stored 2^63 and is about to release one event, and thread 2 has
-- begun to wait for 2^63.
overtaken : (s : Many.System) × Many.Reach target 8 s
unfolding Waiters.compare_and_wait Waiters.store_and_wake ℕ_discrete
overtaken = (
  _,
  Many.later
      (Many.later
        (Many.later
          (Many.later
            (Many.later
              (Many.later
                (Many.later
                  (Many.later
                    (Many.later
                      (Many.later (Many.start 0 (record { word = omega arith; no_reserved = refl }))
                        (Many.call_wait 0 0 refl (omega arith)))
                      (Many.own (Many.comparing 0)))
                    (Many.own (Many.comparing 0)))
                  (Many.own (Many.comparing 0)))
                (Many.call_store 1 (2 ^ 63) refl
                  (record { word = omega arith; no_reserved = refl })))
              (Many.own (Many.storing 1 refl)))
            (Many.call_wait 2 (2 ^ 63) refl (omega arith)))
          (Many.own (Many.comparing 2)))
        (Many.own (Many.comparing 2)))
      (Many.own (Many.comparing 2)),
)

keyed_counter_is_exact_example :
    (bit_and overtaken.0.atomic (reserved_mask target) ≡ count overtaken.0.registered 8)
    × ((i : ℕ)
        → overtaken.0.registered i ≡ true
        → Waits (overtaken.0.pc i) (pub_bits target overtaken.0.atomic))
keyed_counter_is_exact_example = keyed_counter_is_exact target size 8 (omega arith) overtaken.1

-- Thread 0 has waited for 0, and thread 1 is about to release an event after a store of 2^63.
seen_storing : (s : Many.System) × (trace : List Event) × Runs target 8 s trace
unfolding Waiters.compare_and_wait Waiters.store_and_wake ℕ_discrete
seen_storing = (
  _,
  _,
  go
      (go
        (go
          (go
            (go
              (go (begin 0 (record { word = omega arith; no_reserved = refl }))
                (Many.call_wait 0 0 refl (omega arith)))
              (Many.own (Many.comparing 0)))
            (Many.own (Many.comparing 0)))
          (Many.own (Many.comparing 0)))
        (Many.call_store 1 (2 ^ 63) refl (record { word = omega arith; no_reserved = refl })))
      (Many.own (Many.storing 1 refl)),
)

keyed_refines_contract_example : Allowed target seen_storing.0 seen_storing.1
keyed_refines_contract_example = keyed_refines_contract target size 8 (omega arith) seen_storing.2

-- The thread has parked, has been notified, and has returned.
notified_returned : (s : System.System) × (trace : List Told) × Traces true s trace
unfolding Parker.park Parker.unpark Parker.wait_ends ℕ_discrete
notified_returned = (
  _,
  _,
  follow
      (follow
        (follow
          (follow
            (follow (follow begun (System.quiet (System.call_park false refl)))
              (System.quiet (System.own System.parking)))
            (System.quiet (System.own System.parking)))
          (System.quiet (System.call_unpark 0 refl)))
        (System.quiet (System.own (System.meeting 0 refl refl))))
      (System.quiet (System.own System.parking)),
)

keyed_parker_refines_contract_example :
    let s = notified_returned.0 in
    Traced (view s.atomic s.parker) notified_returned.1
    × (s.parker ≢ Parker.panicked)
    × (s.returns ≤ s.unparks)
keyed_parker_refines_contract_example = keyed_parker_refines_contract notified_returned.2

-- Kernels that end a wait of 150 ns by its timeout.
abbrev api : Api
api = record {
  nt_wait_for_keyed_event = λ timeout. 258;
  status_success = 0;
  status_timeout = 258;
  status_alerted = 257;
  status_user_apc = 192;
}

abbrev moment : Duration
moment = record { as_secs = 0; subsec_nanos = 150 }

abbrev windows8 : Windows.WaitAddress
windows8 = record { wait_on_address = λ expected size ms. (false, 1460) }

windows_reports_timeout_example :
    ((Windows.wait true 1460 (Windows.wait_address windows8) 4 1 (some moment) ≡ ok timed_out) ↔ (
      (windows8.wait_on_address 1 4 (windows_convert_timeout_ms (some moment)) ≡ (false, 1460))
      × (rounded 1_000_000 (u32_max - 1) (some moment) ≢ forever)))
    × ((wait_for_keyed_event true api (some moment) ≡ ok timed_out) ↔ (
        (api.nt_wait_for_keyed_event (convert_timeout_100ns (some moment)) ≡ api.status_timeout)
        × (rounded 100 (2 ^ 63) (some moment) ≢ forever)))
windows_reports_timeout_example =
    windows_reports_timeout true 1 (some moment) 1460 4 windows8 api
      (record { secs_fit = omega arith; nanos_fit = omega arith }) (omega arith)
