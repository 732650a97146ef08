-- ===== src/Runtime/Service/Examples.antt =====
-- The block at slot 1 through a service over the in-memory store.

use lean_rust.Runtime.Service
use lean_rust.Runtime.Engine.{VerifyPolicy}
use lean_rust.Runtime.Service.{Service, import_block_synced}
use lean_rust.Runtime.Service.Persist.{Handles, import_block-Handles}
use lean_rust.Storage.Memory.{MemoryStore, memory, held, memory-IsStore, new as new_store}
use lean_rust.Runtime.Examples.{
  first_byte, anchor, signed, start, seeded-IsSound, first_byte-NoReturn,
}

abbrev service : Service (Unit {0}) MemoryStore
service = record { engine = start; signer = tt; store = new_store }

import_block-Handles_example :
    Handles memory held first_byte service signed anchor VerifyPolicy.enforce
      (Service.import_block memory first_byte service signed)
    × Handles memory held first_byte service signed anchor VerifyPolicy.skip
        (import_block_synced memory first_byte service signed)
import_block-Handles_example =
    import_block-Handles memory held first_byte service signed anchor memory-IsStore.0
      seeded-IsSound first_byte-NoReturn
