-- ===== src/Runtime/Signer/Examples.antt =====
-- A toy key whose window is one epoch, in a node with one validator.
use lean_rust.Prelude.{ℕ, suc, ◌+◌, ◌≡◌, refl, none, some, [], ◌∷◌, ltb, if◌then◌else◌, ok, arith}
use lean_rust.Types.Ots.{OtsKeyState, key_state_to_ssz_bytes}
use lean_rust.Types.Ots.RoundTrip.{key_state_from_ssz_bytes-to}
use lean_rust.Maps.BTree
use lean_rust.Ssz.Merkleize.{Sha256}
use lean_rust.Protocol.Vote.{Attestation}
use lean_rust.Storage.Memory.{new, load_ots_key_state, memory, held, memory-IsStore}
use lean_rust.Runtime.Keys.{
  Scheme, SigningKey, prepare, activation_interval, prepared_interval, from_record,
  restore_last_signed,
}
use lean_rust.Runtime.Keys.Window.{Slides, Reaches, prepare-Reaches}
use lean_rust.Runtime.Signer.{
  Secrets, LocalSigner, read_secret_record, resolve_record, resume_record, load_keys, load_resuming,
}
use lean_rust.Runtime.Signer.Guard.{
  Rises, System, call, calls, stays, steps, ots_sign_attestation-Rises,
}

abbrev toy_sha256 : Sha256
toy_sha256 bytes = 77

abbrev toy_scheme : Scheme ℕ (Unit {0})
toy_scheme = record {
  activation = λ k. record { start = 0; end = 8 };
  prepared = λ k. record { start = k; end = k + 1 };
  advance = λ k. if ltb (k + 1) 8 then suc k else k;
  sign = λ k epoch message. some tt;
  to_wire = λ signature. ok [];
  generate = λ seed start count. ok 0;
}

toy_scheme-Slides : Slides toy_scheme
toy_scheme-Slides = record {
  keeps_activation = λ k. refl;
  moves = λ k short. ground (arith, short);
}

abbrev fresh_key : SigningKey ℕ
fresh_key = record { secret = 0; last_signed = none; seed = 5 }

prepare-Reaches_example :
    (key' : SigningKey ℕ) × (prepare toy_scheme fresh_key 3 ≡ (key', ok tt))
    × Reaches toy_scheme fresh_key 3 key'
unfolding activation_interval prepared_interval
prepare-Reaches_example =
    prepare-Reaches toy_scheme fresh_key 3 toy_scheme-Slides (omega arith, omega arith)
      (omega arith)

abbrev secret_record : OtsKeyState
secret_record = record { seed = 5; activation_epoch = 0; num_active_epochs = 8; next_index = 0 }

abbrev secrets : Secrets
secrets index = some (key_state_to_ssz_bytes secret_record)

abbrev signer : LocalSigner ℕ
signer = (0, fresh_key) ∷ []

signer-resumed : load_resuming toy_scheme toy_sha256 memory secrets (0 ∷ []) new ≡ ok signer
unfolding load_resuming load_keys read_secret_record resume_record resolve_record from_record
    restore_last_signed load_ots_key_state new BTree.lookup BTree.insert
signer-resumed =
    rw
      (key_state_from_ssz_bytes-to secret_record (record {
        head_fits = omega arith;
        a_fits = omega arith;
        b_fits = omega arith;
        c_fits = omega arith;
      }))
      refl

abbrev vote_at : ℕ → Attestation
vote_at slot = record {
  validator_id = 0;
  contents = record {
    slot = slot;
    head = record { root = 0; slot = 0 };
    target = record { root = 0; slot = 0 };
    source = record { root = 0; slot = 0 };
  };
}

abbrev loaded : System toy_scheme toy_sha256 memory held
loaded = record { signer = signer; store = new; released = [] }

ots_sign_attestation-Rises_example :
    Rises
      (call toy_scheme toy_sha256 memory held
        (call toy_scheme toy_sha256 memory held loaded (vote_at 2))
        (vote_at 3)).released
ots_sign_attestation-Rises_example =
    ots_sign_attestation-Rises toy_scheme toy_sha256 memory held (memory-IsStore.0).writer secrets
      (0 ∷ []) signer new _ signer-resumed
      (steps _ _ _ (steps _ _ _ (stays _) (calls _ (vote_at 2))) (calls _ (vote_at 3)))
