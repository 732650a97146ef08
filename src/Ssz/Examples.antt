-- ===== src/Ssz/Examples.antt =====
-- Three chunks in a list of at most nine.
use lean_rust.Prelude.{◌+◌, ◌*◌, ◌≡◌, List, [], ◌∷◌, ok, arith}
use lean_rust.Types.Endian.{Bytes32}
use lean_rust.Ssz.Merkleize.{Sha256, merkleize_with_limit}
use lean_rust.Ssz.Merkleize.Limit.{IsLimitRoot, merkleize_with_limit-IsLimitRoot}

abbrev toy_sha256 : Sha256
toy_sha256 [] = 1
toy_sha256 (b ∷ bytes) = 3 * toy_sha256 bytes + b

abbrev chunks : List Bytes32
chunks = 4 ∷ 5 ∷ 6 ∷ []

merkleize_with_limit-IsLimitRoot_example :
    (root : Bytes32) × (merkleize_with_limit toy_sha256 chunks 9 ≡ ok root)
    × IsLimitRoot toy_sha256 chunks 9 root
merkleize_with_limit-IsLimitRoot_example =
    merkleize_with_limit-IsLimitRoot toy_sha256 chunks 9 (omega arith) (omega arith)
