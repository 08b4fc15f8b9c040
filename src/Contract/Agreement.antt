-- ===== src/Contract/Agreement.antt =====
-- How the threads of an implementation agree with those of the contract.
use valet_parking.Prelude.{
  ℕ, Bool, true, false, ◌≡◌, ◌≢◌, refl, Option, none, some, List, inl, inr, sym,
}
use valet_parking.Prelude.Family.{update, update_elim, update_same}
use valet_parking.Contract.{
  Pc, waiting, storing, idle, leaving, System, moves, leave, return, mark, Traced, later, Event,
  returns, follows, signal,
}
use mathlib.Core.Logic.{ite}
use valet_parking.Prelude.{bit_and}
use valet_parking.Word.{Target, not_usize}
use valet_parking.Reserved.{reserved_mask}
use mathlib.Core.Path.{fun_ext}
use native.Mathlib.Decide.{ℕ_discrete}

-- Two families that are changed at one index.
pub update_both {ℓ ℓ' ℓ''} :
    {A : Type ℓ} {B : Type ℓ'} (P : A → B → Type ℓ'') (f : ℕ → A) (g : ℕ → B) (i : ℕ) (x : A)
    (y : B)
    → ((k : ℕ) → P (f k) (g k))
    → P x y
    → (k : ℕ) → P (update f i x k) (update g i y k)
update_both P f g i x y there here k =
    elim (ℕ_discrete i k) as (λ d. P (ite d x (f k)) (ite d y (g k))) [
      | yes same ↦ here
      | no other ↦ there k
    ]

pub update_there {ℓ} : {A : Type ℓ} (f : ℕ → A) (i : ℕ) (x : A) → update f i x i ≡ x
update_there f i x = update_elim (λ u. u ≡ x) f i x i (λ _. refl) (λ other. absurd (other refl))

-- The same, for what depends on the index too.
pub update_both_at {ℓ ℓ' ℓ''} :
    {A : Type ℓ} {B : Type ℓ'} (P : ℕ → A → B → Type ℓ'') (f : ℕ → A) (g : ℕ → B) (i : ℕ) (x : A)
    (y : B)
    → ((k : ℕ) → i ≢ k → P k (f k) (g k))
    → P i x y
    → (k : ℕ) → P k (update f i x k) (update g i y k)
update_both_at P f g i x y there here k =
    elim (ℕ_discrete i k) as (λ d. P k (ite d x (f k)) (ite d y (g k))) [
      | yes same ↦ rw (sym same) here
      | no other ↦ there k other
    ]

-- Only the last of two changes at one index counts.
pub update_twice {ℓ} :
    {A : Type ℓ} (f : ℕ → A) (i : ℕ) (x y : A) → update (update f i x) i y ≡ update f i y
update_twice f i x y = fun_ext (λ k.
    update_elim (λ u. u ≡ update f i y k) (update f i x) i y k
      (λ same. rw same (sym (update_there f k y)))
      (λ other.
        update_elim (λ u. u ≡ update f i y k) f i x k (λ same. absurd (other same))
          (λ _. update_elim (λ u. f k ≡ u) f i y k (λ same. absurd (other same)) (λ _. refl))))

-- The thread waits for this value.
abbrev pub WaitsFor : ℕ → Pc → Type 0
WaitsFor e (waiting f signalled) = f ≡ e
WaitsFor e pc = ⊥

pub signal-WaitsFor : (e : ℕ) (q : Pc) → WaitsFor e q → WaitsFor e (signal q)
signal-WaitsFor e idle w = w
signal-WaitsFor e (waiting f signalled) w = w
signal-WaitsFor e (storing new) w = w
signal-WaitsFor e leaving w = w

-- The atomic was written since the thread began to wait.
abbrev pub Signalled : Pc → Type 0
Signalled (waiting f signalled) = signalled ≡ true
Signalled pc = ⊥

pub signal-Signalled : (e : ℕ) (q : Pc) → WaitsFor e q → Signalled (signal q)
signal-Signalled e idle w = absurd w
signal-Signalled e (waiting f signalled) w = refl
signal-Signalled e (storing new) w = absurd w
signal-Signalled e leaving w = absurd w

-- A call that was under way has returned.
abbrev pub returned : (thread : ℕ) (was_outside is_outside : Bool) → Option Event
returned i false true = some (returns i)
returned i was now = none

-- The thread takes the place `q`, and a caller sees `seen` of it.
abbrev pub Takes :
    (start : System) → System → List Event → (thread : ℕ) → Option Event → Pc → Type 0
Takes o a trace i seen q = Traced o (moves a i q) (follows seen trace)

-- What a load of the atomic may read: the value, and reserved bits only if they may be set.
abbrev pub Reads : Target → System → (word : ℕ) → Type 0
Reads t a word =
    (bit_and word (not_usize t (reserved_mask t)) ≡ a.value) × (a.marked ≡ false → word ≡ a.value)

abbrev pub marked : System → System
marked a = record a { marked = true }

module _ {o a : System} {trace : List Event} (i : ℕ) (traced : Traced o a trace) where
  -- It may set reserved bits while it waits for the value.
  pub marks : {e : ℕ} (q : Pc) → a.pc i ≡ q → WaitsFor e q → a.value ≡ e → Traced o (marked a) trace
  marks idle here w same = absurd w
  marks (storing new) here w same = absurd w
  marks leaving here w same = absurd w
  marks (waiting f signalled) here w same = later traced (mark i here (rw w same))

  -- It may stay where it is, leave its wait, and return.
  pub stays : {q : Pc} → a.pc i ≡ q → Takes o a trace i none q
  stays here = rw (sym here) (rw (update_same a.pc i) traced)

  pub leaves :
      {e : ℕ} (q : Pc) → a.pc i ≡ q → WaitsFor e q → a.value ≢ e → Takes o a trace i none leaving
  leaves idle here w other = absurd w
  leaves (storing new) here w other = absurd w
  leaves leaving here w other = absurd w
  leaves (waiting f signalled) here w other = later traced (leave i here (inr (rw w other)))

  pub leaves_by_store : (q : Pc) → a.pc i ≡ q → Signalled q → Takes o a trace i none leaving
  leaves_by_store idle here w = absurd w
  leaves_by_store (storing new) here w = absurd w
  leaves_by_store leaving here w = absurd w
  leaves_by_store (waiting f signalled) here w = later traced (leave i here (inl w))

  pub step_out : a.pc i ≡ leaving → Takes o a trace i (some (returns i)) idle
  step_out here = later traced (return i here)

  pub leave_and_step_out :
      Takes o a trace i none leaving → Takes o a trace i (some (returns i)) idle
  leave_and_step_out left =
      rw (sym (update_twice a.pc i leaving idle))
        (later left (return i (update_there a.pc i leaving)))
