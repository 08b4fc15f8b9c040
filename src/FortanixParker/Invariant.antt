-- ===== src/FortanixParker/Invariant.antt =====
-- What holds in every reachable state of the Parker over usercalls.
use valet_parking.Prelude.{ℕ, bit_and, ◌+◌, ◌≤◌, ◌<◌, ◌≡◌, ◌⊎◌, false, arith, refl}
use valet_parking.Prelude.Bits.{bit_and-one, bit_or-one, zero-bit_or}
use valet_parking.Prelude.Family.{update}
use valet_parking.Word.{Target, shr_usize, not_usize}
use valet_parking.Reserved.Fields.{field-pos}
use valet_parking.PosixParker.Words.{field-half, and_mask, and_ptr_bits, and_not_ptr_bits, ptr_lem}
use valet_parking.PosixParker.System.{IsAddress}
use valet_parking.FortanixParker.{
  ParkPc, called, trying, waiting, checking, UnparkPc, idle, reading, clearing, sending, notify_bit,
  ptr_bits, park, unpark, clear_ptr, wait_ends,
}
use valet_parking.FortanixParker.System.{
  System, parks, unparks_by, Step, call_park, parking, wakes, call_unpark, reads, clears, sends,
  dangles, Reach, start, later,
}

-- The words that go with each place in `park`.
abbrev pub Agrees : (addr a : ℕ) → ParkPc → Type 0
Agrees addr a waiting = (a ≡ shr_usize addr 5) ⊎ ((a ≡ shr_usize addr 5 + 1) ⊎ (a ≡ 1))
Agrees addr a checking = (a ≡ shr_usize addr 5) ⊎ ((a ≡ shr_usize addr 5 + 1) ⊎ (a ≡ 1))
Agrees addr a (trying c) = (a ≤ 1) × (c ≤ a)
Agrees addr a pc = a ≤ 1

-- ... with each place in `unpark`, ...
abbrev pub Notifies : (addr a : ℕ) → UnparkPc → Type 0
Notifies addr a (reading p) = (a ≡ shr_usize addr 5 + 1) × (p ≡ addr)
Notifies addr a clearing = a ≡ shr_usize addr 5 + 1
Notifies addr a pc = Unit

abbrev pub Busy : UnparkPc → Type 0
Busy (reading p) = Unit
Busy clearing = Unit
Busy pc = ⊥

-- ... and with `park` after it has returned once.
abbrev pub Spent : ParkPc → Type 0
Spent waiting = ⊥
Spent checking = ⊥
Spent (trying c) = c ≡ 1
Spent pc = Unit

pub record Inv (t : Target) (s : System) : Type 0 where
  pub no_fault : s.faulted ≡ false
  pub address : IsAddress t s.addr
  pub agrees : Agrees s.addr s.atomic s.parker
  pub notifies : (i : ℕ) → Notifies s.addr s.atomic (s.unparker i)
  pub one : (i j : ℕ) → Busy (s.unparker i) → Busy (s.unparker j) → i ≡ j
  pub once : s.returns ≤ 1
  pub spent : 0 < s.returns → (s.atomic ≡ 1) × Spent s.parker

module _ (t : Target) (size : 1 ≤ t.usize_bytes) where
  parks-Agrees :
      {addr : ℕ} (a : ℕ) (pc : ParkPc)
      → IsAddress t addr
      → Agrees addr a pc
      → Agrees addr (park t (shr_usize addr 5) a pc).atomic (park t (shr_usize addr 5) a pc).pc
  unfolding park
  parks-Agrees {addr} a (trying c) ok g =
      ground (arith, ptr_lem t size ok, and_mask t size c, zero-bit_or (shr_usize addr 5))
  parks-Agrees {addr} a checking ok g = ground (arith, ptr_lem t size ok, and_mask t size a)
  parks-Agrees a (called timed) ok g = ground arith
  parks-Agrees a pc ok g = ground arith

  parks-Inv : {s : System} (pc : ParkPc) → s.parker ≡ pc → Inv t s → Inv t (parks t s)
  unfolding park
  parks-Inv {s} pc e inv = record {
    no_fault = inv.no_fault;
    address = inv.address;
    agrees = rw e (parks-Agrees s.atomic pc inv.address (rw e at inv.agrees));
    notifies =
        λ i. ground (arith, inv.notifies i, ptr_lem t size inv.address, and_mask t size s.atomic);
    one = inv.one;
    once = ground (arith, ptr_lem t size inv.address, and_mask t size s.atomic);
    spent = λ h. ground (arith, h, ptr_lem t size inv.address, and_mask t size s.atomic);
  }

  -- `unpark` with no thread, with a thread, and after another `unpark`.
  unpark_nobody : (a : ℕ) → a ≤ 1 → ((unpark t a).pc ≡ idle) × ((unpark t a).atomic ≡ 1)
  unfolding unpark
  unpark_nobody a h = ground (
    arith,
    bit_and-one a,
    bit_or-one a,
    and_ptr_bits t size a,
    field-pos t size,
    field-half t size,
  )

  unpark_waiting :
      (addr a : ℕ)
      → IsAddress t addr
      → a ≡ shr_usize addr 5
      → ((unpark t a).pc ≡ reading addr) × ((unpark t a).atomic ≡ shr_usize addr 5 + 1)
  unfolding unpark
  unpark_waiting addr a ok h =
      let exact : bit_and a (ptr_bits t) ≡ shr_usize addr 5 =
        omega (arith, and_ptr_bits t size a, ptr_lem t size ok) in
      let none : bit_and a notify_bit ≡ 0 = omega (arith, bit_and-one a, ptr_lem t size ok) in
      (
        rw (exact, none) (ground (arith, ptr_lem t size ok)),
        omega (arith, bit_or-one a, ptr_lem t size ok),
      )

  unpark_again :
      (addr a : ℕ)
      → IsAddress t addr
      → a ≡ shr_usize addr 5 + 1
      → ((unpark t a).pc ≡ idle) × ((unpark t a).atomic ≡ a)
  unfolding unpark
  unpark_again addr a ok h = ground (arith, bit_and-one a, bit_or-one a, ptr_lem t size ok)

  unparks-Inv : {s : System} (i : ℕ) → s.unparker i ≡ idle → Inv t s → Inv t (unparks_by t i s)
  unparks-Inv {s} i e inv =
      let nobody = unpark_nobody s.atomic in
      let first = unpark_waiting s.addr s.atomic inv.address in
      let again = unpark_again s.addr s.atomic inv.address in
      let ptr = ptr_lem t size inv.address in
      record {
        no_fault = inv.no_fault;
        address = inv.address;
        agrees = ground (arith, nobody, first, again, ptr);
        notifies = λ k. ground (arith, nobody, first, again, ptr, inv.notifies k);
        one = λ j k a b.
            ground (arith, nobody, first, again, ptr, inv.notifies j, inv.notifies k, inv.one j k);
        once = inv.once;
        spent = λ h. ground (arith, h, nobody, inv.spent h);
      }

  clears-Inv :
      {s : System} (i : ℕ)
      → s.unparker i ≡ clearing
      → Inv t s
      → Inv t (record s { atomic = clear_ptr t s.atomic; unparker = update s.unparker i sending })
  unfolding clear_ptr
  clears-Inv {s} i e inv =
      let ptr = ptr_lem t size inv.address in
      let cleared : bit_and s.atomic (not_usize t (ptr_bits t)) ≡ 1 =
        ground (arith, and_not_ptr_bits t size s.atomic, ptr, inv.notifies i) in
      record {
        no_fault = inv.no_fault;
        address = inv.address;
        agrees = ground (arith, cleared, ptr, inv.notifies i);
        notifies = λ k. ground (arith, inv.notifies k, inv.one i k);
        one = λ j k a b. ground (arith, inv.one j k);
        once = inv.once;
        spent = λ h. ground (arith, h, ptr, inv.notifies i, inv.spent h);
      }

  pub Step-Inv : {s u : System} → Step t s u → Inv t s → Inv t u
  unfolding wait_ends
  Step-Inv {s} (call_park timed a e ok) inv = record {
    no_fault = inv.no_fault;
    address = ok;
    agrees = ground arith;
    notifies = λ k. ground (arith, inv.notifies k, ptr_lem t size inv.address);
    one = inv.one;
    once = inv.once;
    spent = λ h. ground (arith, h);
  }
  Step-Inv {s} parking inv = parks-Inv s.parker refl inv
  Step-Inv {s} wakes inv = record {
    no_fault = inv.no_fault;
    address = inv.address;
    agrees = ground arith;
    notifies = inv.notifies;
    one = inv.one;
    once = inv.once;
    spent = λ h. ground (arith, h);
  }
  Step-Inv (call_unpark i e) inv = unparks-Inv i e inv
  Step-Inv {s} (reads i e here) inv = record {
    no_fault = inv.no_fault;
    address = inv.address;
    agrees = inv.agrees;
    notifies = λ k. ground (arith, inv.notifies k, inv.notifies i);
    one = λ j k a b. ground (arith, inv.one j k, inv.one i k, inv.one j i);
    once = inv.once;
    spent = inv.spent;
  }
  Step-Inv (clears i e) inv = clears-Inv i e inv
  Step-Inv {s} (sends i e) inv = record {
    no_fault = inv.no_fault;
    address = inv.address;
    agrees = inv.agrees;
    notifies = λ k. ground (arith, inv.notifies k);
    one = λ j k a b. ground (arith, inv.one j k);
    once = inv.once;
    spent = inv.spent;
  }
  Step-Inv {s} (dangles i e gone) inv =
      absurd (ground (arith, inv.notifies i, ptr_lem t size inv.address))

  pub Reach-Inv : {s : System} → Reach t s → Inv t s
  Reach-Inv (start a ok) = record {
    no_fault = refl;
    address = ok;
    agrees = omega arith;
    notifies = λ i. tt;
    one = λ i j a. absurd a;
    once = omega arith;
    spent = λ h. absurd (omega arith);
  }
  Reach-Inv (later r step) = Step-Inv step (Reach-Inv r)
