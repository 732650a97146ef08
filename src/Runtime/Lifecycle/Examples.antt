-- ===== src/Runtime/Lifecycle/Examples.antt =====
-- A node of three services, of which the last does not start.
use lean_rust.Prelude.{◌≡◌, ◌⊎◌, Bool, true, false, none, some, List, [], map, ok, err}
use mathlib.Core.List.{reverse}
use lean_rust.Runtime.Lifecycle.{
  Name, chain, p2p, http, stops, already_started, Node, Answers, start, stop,
}
use lean_rust.Runtime.Lifecycle.Ordered.{Started, Unwound, start_stop-Ordered}

abbrev wired : Name → Bool
wired name = elim name [ chain ↦ true | p2p ↦ true | http ↦ true | _ ↦ false ]

abbrev node : Node
node = record { wired = wired; state = none }

abbrev answers : Answers (Unit {0})
answers = record {
  start = λ name. elim name [ http ↦ err tt | _ ↦ ok tt ];
  stop = λ name. ok tt;
  status = λ name. ok tt;
}

start_stop-Ordered_example :
    ((node.state ≡ none)
      × (Started answers node (start answers node) ⊎ Unwound answers node (start answers node))
      × (stop answers node ≡ (node, [], ok tt)))
    ⊎ ((started : List Name) × (node.state ≡ some started)
        × (start answers node ≡ (node, [], err already_started))
        × ((stop answers node).0 ≡ record node { state = none })
        × ((stop answers node).1 ≡ map stops (reverse started)))
start_stop-Ordered_example = start_stop-Ordered answers node
