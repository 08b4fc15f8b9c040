-- ===== src/WaiterQueue/Unparking.antt =====
-- `store_and_wake` unparks the thread at the head of its list.
use valet_parking.Prelude.{
  ℕ, ◌∙◌, sym, Bool, false, true, ◌≡◌, ◌≢◌, List, [], ◌∷◌, refl, inl, inr, arith,
}
use valet_parking.Prelude.Family.{update, update_elim}
use valet_parking.Word.{Target}
use valet_parking.WaiterQueue.{Pc, waiting, walking, unparking}
use valet_parking.WaiterQueue.System.{System, HasNode}
use valet_parking.WaiterQueue.Chain.{
  Owner, shared, held, Place, nowhere, at, Listed, Linked, Linked-carried, size,
}
use valet_parking.WaiterQueue.Invariant.{Holds, Stores, Inv}
use valet_parking.WaiterQueue.Moves.{Holds-carried, Holds-none}

-- The lists after that of thread `i` has been cut down to `ks`.
abbrev cut : ℕ → List ℕ → (Owner → List ℕ) → Owner → List ℕ
cut i ks chain shared = chain shared
cut i ks chain (held j) = update (λ k. chain (held k)) i ks j

Listed-cut :
    (l i k : ℕ) (ks : List ℕ) (chain : Owner → List ℕ) (o : Owner)
    → chain (held i) ≡ k ∷ ks
    → l ≢ k
    → Listed l (chain o)
    → Listed l (cut i ks chain o)
Listed-cut l i k ks chain shared e other h = h
Listed-cut l i k ks chain (held j) e other h =
    update_elim (Listed l) (λ (x : ℕ). chain (held x)) i ks j
      (λ same.
        let h' : Listed l (chain (held i)) = rw same h in
        elim (rw e at h') as (λ _. Listed l ks) [ inl x ↦ absurd (other x) | inr x ↦ x ])
      (λ _. h)

-- The thread that is about to be unparked is the first of the list.
pub record Head {t : Target} {s : System} (inv : Inv t s) (i k p n : ℕ) : Type 0 where
  pub rest : List ℕ
  pub expected : ℕ
  pub chain : inv.chain (held i) ≡ k ∷ rest
  pub waits : s.pc k ≡ waiting expected p n false
  pub placed : inv.place k ≡ at (held i) (size rest)
  pub linked : Linked s.pc inv.place (held i) n rest

pub unparking-Head :
    {t : Target} {s : System} (inv : Inv t s) (i k : ℕ) {p e m n : ℕ} {unparked : Bool}
    → s.pc i ≡ unparking p n
    → s.pc k ≡ waiting e p m unparked
    → Head inv i k p n
unparking-Head {s = s} inv i k {p} {n = n} w f =
    go (inv.chain (held i)) refl (rw w at (inv.holds i))
  where
    go :
        (is : List ℕ)
        → inv.chain (held i) ≡ is
        → Holds s.pc inv.place i (unparking p n) is
        → Head inv i k p n
    go [] e h = absurd h
    go (j ∷ js) e (node, same_next, l) =
        let same : j ≡ k = inv.apart j k p (rw node.waits refl) (rw f refl) in
        record {
          rest = js;
          expected = node.expected;
          chain = rw (sym same) e;
          waits = rw (sym same) (rw (sym same_next) node.waits);
          placed = rw (sym same) node.placed;
          linked = l;
        }

-- ... and it leaves the list.
pub unparks-Inv :
    {t : Target} {s : System} (inv : Inv t s) (i k : ℕ) {p e m n : ℕ} {unparked : Bool}
    → s.pc i ≡ unparking p n
    → s.pc k ≡ waiting e p m unparked
    → Inv t (record s { pc = update (update s.pc k (waiting e p m true)) i (walking n) })
unparks-Inv {t = t} {s = s} inv i k {p} {e} {m} {n} w f = record {
  no_fault = inv.no_fault;
  word = inv.word;
  place = place;
  chain = cut i hd.rest inv.chain;
  linked =
      Linked-carried _ (inv.chain shared)
        (λ l r q below. carried l q (λ x. ground (arith, x, hd.placed))) inv.linked;
  holds = λ j.
      update_elim (λ (pc : Pc). Holds pcs place j pc (cut i hd.rest inv.chain (held j))) mid i
        (walking n) j
        (λ same. rw (sym same) (
          update_elim (Linked pcs place (held i) n) (λ (x : ℕ). inv.chain (held x)) i hd.rest i
            (λ _.
              Linked-carried n hd.rest
                (λ l r q below. carried l q (λ x. ground (arith, x, hd.placed))) hd.linked)
            (λ no. absurd (no refl))))
        (λ other.
          update_elim (Holds pcs place j (mid j)) (λ (x : ℕ). inv.chain (held x)) i hd.rest j
            (λ same. absurd (other same))
            (λ _.
              update_elim (λ (pc : Pc). Holds pcs place j pc (inv.chain (held j))) s.pc k
                (waiting e p m true) j
                (λ same.
                  Holds-none s.pc inv.place j (s.pc j) (inv.chain (held j))
                    (λ q x. ground (arith, f, same)) (λ q r x. ground (arith, f, same))
                    (inv.holds j))
                (λ _.
                  Holds-carried (s.pc j) (inv.chain (held j))
                    (λ l r q. carried l q (λ x. ground (arith, x, hd.placed, other)))
                    (inv.holds j))));
  placed = λ l q. ground (arith, inv.placed l);
  found = λ l q. ground (arith, inv.found l);
  listed = λ l {o} {r}.
      update_elim (λ (x : Place). x ≡ at o r → Listed l (cut i hd.rest inv.chain o)) inv.place k
        nowhere l (λ same q. absurd (ground (arith, q)))
        (λ other q.
          Listed-cut l i k hd.rest inv.chain o hd.chain (λ x. other (sym x)) (inv.listed l q));
  apart = λ l h q a b. inv.apart l h q (was l q a) (was h q b);
  current = λ l {r} q x.
      let other : l ≢ k = λ y. ground (arith, q, y) in
      let there : inv.place l ≡ at shared r = ground (arith, q) in
      inv.current l there (sym (carried l there other).0 ∙ x);
  stores = λ l.
      update_elim (Stores t) mid i (walking n) l (λ same. tt)
        (λ _.
          update_elim (Stores t) s.pc k (waiting e p m true) l (λ same. tt) (λ _. inv.stores l));
}
  where
    hd : Head inv i k p n
    hd = unparking-Head inv i k w f

    mid : ℕ → Pc
    mid = update s.pc k (waiting e p m true)

    pcs : ℕ → Pc
    pcs = update mid i (walking n)

    place : ℕ → Place
    place = update inv.place k nowhere

    carried :
        (l : ℕ) {o : Owner} {r : ℕ}
        → inv.place l ≡ at o r
        → l ≢ k
        → (pcs l ≡ s.pc l) × (place l ≡ at o r)
    carried l q other = (ground (arith, inv.placed l), ground arith)

    was : (l q : ℕ) → HasNode (pcs l) q → HasNode (s.pc l) q
    was l q =
        update_elim (λ (pc : Pc). HasNode pc q → HasNode (s.pc l) q) mid i (walking n) l
          (λ same a. absurd a)
          (λ _.
            update_elim (λ (pc : Pc). HasNode pc q → HasNode (s.pc l) q) s.pc k (waiting e p m true)
              l (λ same a. rw (sym same) (rw f a)) (λ _ a. a))
