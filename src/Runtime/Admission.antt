-- ===== src/Runtime/Admission.antt =====
-- crates/runtime/src/p2p/admission.rs: the bound on the messages of one peer that are in flight. A peer id is
-- a number, since only its equality is used; a guard is the peer that it was handed out for.
pub mod Ledger
mod Examples
use package.lean_rust.Prelude.{
  ℕ, ◌+◌, ◌-◌, Bool, true, false, Option, none, some, leb, ◌==◌, if◌then◌else◌, [],
}
use package.lean_rust.Maps.Hash.{HashMap, get, insert, remove}

-- `NonZeroUsize` is its number.
pub record AdmissionConfig : Type 0 where
  pub max_in_flight_per_peer : ℕ

unfoldable pub default_config : AdmissionConfig
default_config = record { max_in_flight_per_peer = 32 }

pub record PeerAdmission : Type 0 where
  pub in_flight : HashMap ℕ
  pub cap : ℕ

unfoldable pub new : AdmissionConfig → PeerAdmission
new config = record { in_flight = []; cap = config.max_in_flight_per_peer }

-- `map.entry(peer).or_insert(0)`
unfoldable pub entry : HashMap ℕ → ℕ → ℕ
entry map peer = elim (get map peer) [ none ↦ 0 | some count ↦ count ]

-- Whether a guard is handed out.
unfoldable pub try_admit : PeerAdmission → ℕ → PeerAdmission × Bool
try_admit self peer =
    let count = entry self.in_flight peer in
    if leb self.cap count
    then (record self { in_flight = insert self.in_flight peer count }, false)
    else (record self { in_flight = insert self.in_flight peer (count + 1) }, true)

unfoldable pub release : PeerAdmission → ℕ → PeerAdmission
release self peer = elim (get self.in_flight peer) [
  | none ↦ self
  | some count ↦
      if count - 1 == 0
      then record self { in_flight = remove self.in_flight peer }
      else record self { in_flight = insert self.in_flight peer (count - 1) }
]
