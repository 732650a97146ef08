-- ===== src/Storage/Examples.antt =====
-- A first accepted block, saved step by step to the in-memory adapter.
use lean_rust.Prelude.{◌≡◌, refl, ◌⊎◌, inl, [], ok}
use lean_rust.Types.Bitlist
use lean_rust.Protocol.Block.{SignedBlockWithAttestation}
use lean_rust.Protocol.State.{State}
use lean_rust.Storage.{HeadInfo, default_save_accepted}
use lean_rust.Storage.Contract.{IsBacked, default_save_accepted-IsBacked}
use lean_rust.Storage.Memory.{new, memory, held, memory-IsStore}

abbrev signed : SignedBlockWithAttestation
signed = record {
  message = record {
    block = record {
      slot = 1;
      proposer_index = 0;
      parent_root = 7;
      state_root = 9;
      body = record { attestations = [] };
    };
    proposer_attestation = record {
      validator_id = 0;
      contents = record {
        slot = 1;
        head = record { root = 0; slot = 0 };
        target = record { root = 0; slot = 0 };
        source = record { root = 0; slot = 0 };
      };
    };
  };
  signature = [];
}

abbrev post_state : State
post_state = record {
  config = record { genesis_time = 0 };
  slot = 1;
  latest_block_header = record {
    slot = 1;
    proposer_index = 0;
    parent_root = 7;
    state_root = 0;
    body_root = 0;
  };
  latest_justified = record { root = 7; slot = 0 };
  latest_finalized = record { root = 7; slot = 0 };
  historical_block_hashes = [];
  justified_slots = Bitlist.new;
  validators = [];
  justifications_roots = [];
  justifications_validators = Bitlist.new;
}

abbrev info : HeadInfo
info = record { head = record { root = 12; slot = 1 }; finalized = record { root = 7; slot = 0 } }

default_save_accepted-IsBacked_example :
    IsBacked (held (default_save_accepted memory new 12 signed post_state info).0)
    × (((default_save_accepted memory new 12 signed post_state info).1 ≡ ok tt)
        ⊎ ((held (default_save_accepted memory new 12 signed post_state info).0).head
            ≡ (held new).head))
unfolding new
default_save_accepted-IsBacked_example =
    default_save_accepted-IsBacked memory held 12 signed post_state info new
      (memory-IsStore.0).writer (λ info' h. cc) (inl refl)
