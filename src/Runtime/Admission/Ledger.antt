-- ===== src/Runtime/Admission/Ledger.antt =====
-- crates/runtime/src/p2p/admission.rs: the counters against the guards that are alive.
use lean_rust.Prelude.{
  ℕ, suc, ◌+◌, ◌-◌, ◌≤◌, ◌<◌, ◌≡◌, refl, sym, inl, inr, Bool-cases, Option, none, some, List, [],
  ◌∷◌, leb, ==→≡, ==→≢, ◌==◌, if◌then◌else◌, arith,
}
use lean_rust.Maps.Hash.{
  get, IsUnique, get-insert, get-remove_self, get-remove_ne, insert-IsUnique, remove-IsUnique,
}
use lean_rust.Runtime.Admission.{AdmissionConfig, PeerAdmission, new, entry, try_admit, release}

-- The number of guards of a peer, and the guards without one of its.
abbrev pub held : ℕ → List ℕ → ℕ
held peer [] = 0
held peer (p ∷ guards) = if p == peer then suc (held peer guards) else held peer guards

abbrev pub without : ℕ → List ℕ → List ℕ
without peer [] = []
without peer (p ∷ guards) = if p == peer then guards else p ∷ without peer guards

pub record Ingress : Type 0 where
  pub admission : PeerAdmission
  pub guards : List ℕ

abbrev pub admit : Ingress → ℕ → Ingress
admit self peer =
    let (admission, admitted) = try_admit self.admission peer in
    record { admission = admission; guards = if admitted then peer ∷ self.guards else self.guards }

-- A guard is alive once, and dropped once.
pub data Step : Ingress → Ingress → Type 0 where
  admits : (self : Ingress) (peer : ℕ) → Step self (admit self peer)
  drops :
      (self : Ingress) (peer : ℕ)
      → 0 < held peer self.guards
      → Step self
          (record { admission = release self.admission peer; guards = without peer self.guards })

pub data Reach : Ingress → Ingress → Type 0 where
  stays : (self : Ingress) → Reach self self
  steps : (a b c : Ingress) → Reach a b → Step b c → Reach a c

-- An entry for a peer that holds a guard, and no other.
abbrev pub entry_of : ℕ → Option ℕ
entry_of count = if count == 0 then none else some count

pub record Balanced (cap : ℕ) (self : Ingress) : Type 0 where
  pub bound : self.admission.cap ≡ cap
  pub counts : (p : ℕ) → get self.admission.in_flight p ≡ entry_of (held p self.guards)
  pub capped : (p : ℕ) → held p self.guards ≤ cap
  pub positive : 0 < cap
  pub unique : IsUnique self.admission.in_flight

held-without :
    (p q : ℕ) (guards : List ℕ)
    → held q (without p guards) ≡ (if p == q then held q guards - 1 else held q guards)
held-without p q [] = ground arith
held-without p q (g ∷ guards) = ground (arith, held-without p q guards)

entry-Balanced :
    {cap : ℕ} (self : Ingress) (p : ℕ)
    → Balanced cap self
    → entry self.admission.in_flight p ≡ held p self.guards
unfolding entry
entry-Balanced self p b = ground (arith, b.counts p)

admit-Balanced :
    {cap : ℕ} (self : Ingress) (p : ℕ) → Balanced cap self → Balanced cap (admit self p)
unfolding try_admit
admit-Balanced self p b =
    let count = entry-Balanced self p b in
    elim (Bool-cases (leb self.admission.cap (entry self.admission.in_flight p))) [
      | inl full ↦ rw full (record {
        bound = b.bound;
        counts = λ q. ground (
          arith,
          b.counts q,
          count,
          full,
          b.positive,
          b.bound,
          get-insert self.admission.in_flight p q (entry self.admission.in_flight p),
        );
        capped = b.capped;
        positive = b.positive;
        unique = insert-IsUnique self.admission.in_flight p _ b.unique;
      })
      | inr room ↦ rw room (record {
        bound = b.bound;
        counts = λ q. ground (
          arith,
          b.counts q,
          count,
          get-insert self.admission.in_flight p q (entry self.admission.in_flight p + 1),
        );
        capped = λ q. ground (arith, b.capped q, count, room, b.bound);
        positive = b.positive;
        unique = insert-IsUnique self.admission.in_flight p _ b.unique;
      })
    ]

drop-Balanced :
    {cap : ℕ} (self : Ingress) (p : ℕ)
    → 0 < held p self.guards
    → Balanced cap self
    → Balanced cap (record { admission = release self.admission p; guards = without p self.guards })
unfolding release
drop-Balanced self p alive b =
    let map = self.admission.in_flight in
    let count = held p self.guards in
    let found : get map p ≡ some count = ground (arith, b.counts p, alive) in
    elim (Bool-cases (count - 1 == 0)) [
      | inl last ↦
          rw (found, last, release)
            (record {
              bound = b.bound;
              counts = λ q. elim (Bool-cases (p == q)) [
                | inl same ↦
                    let here = ==→≡ p q same in
                    rw (sym here) (
                      ground (
                        arith,
                        last,
                        alive,
                        held-without p p self.guards,
                        get-remove_self map p b.unique,
                      ))
                | inr other ↦ ground (
                  arith,
                  other,
                  b.counts q,
                  held-without p q self.guards,
                  get-remove_ne map p q (==→≢ p q other),
                )
              ];
              capped = λ q. ground (arith, b.capped q, held-without p q self.guards);
              positive = b.positive;
              unique = remove-IsUnique map p b.unique;
            })
      | inr more ↦
          rw (found, more, release)
            (record {
              bound = b.bound;
              counts = λ q. ground (
                arith,
                b.counts q,
                more,
                held-without p q self.guards,
                get-insert map p q (count - 1),
              );
              capped = λ q. ground (arith, b.capped q, held-without p q self.guards);
              positive = b.positive;
              unique = insert-IsUnique map p _ b.unique;
            })
    ]

Step-Balanced : {cap : ℕ} (a b : Ingress) → Step a b → Balanced cap a → Balanced cap b
Step-Balanced a b (admits s p) balanced = admit-Balanced s p balanced
Step-Balanced a b (drops s p alive) balanced = drop-Balanced s p alive balanced

Reach-Balanced : {cap : ℕ} (a b : Ingress) → Reach a b → Balanced cap a → Balanced cap b
Reach-Balanced a b (stays s) balanced = balanced
Reach-Balanced a b (steps s t u before step) balanced =
    Step-Balanced t u step (Reach-Balanced s t before balanced)

-- From an empty bound with a positive cap, after any messages that are admitted or turned away and any guards
-- that are dropped, each once: the counter of every peer is the number of its guards, no
-- peer has more guards than the cap, and a peer with none has no entry.
pub try_admit-Balanced :
    (config : AdmissionConfig) (self : Ingress)
    → 0 < config.max_in_flight_per_peer
    → Reach (record { admission = new config; guards = [] }) self
    → Balanced config.max_in_flight_per_peer self
unfolding new get
try_admit-Balanced config self positive reach = Reach-Balanced _ self reach (record {
  bound = refl;
  counts = λ p. refl;
  capped = λ p. omega arith;
  positive = positive;
  unique = tt;
})
