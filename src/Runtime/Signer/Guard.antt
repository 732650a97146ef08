-- ===== src/Runtime/Signer/Guard.antt =====
-- crates/runtime/src/duties/signer.rs and ots_signer.rs: the signatures that leave a node, over its calls,
-- its other writes and its restarts.
use lean_rust.Prelude.{
  ℕ, ◌+◌, ◌≤◌, ◌<◌, ◌≡◌, refl, sym, ap, inl, inr, some, List, [], ◌∷◌, Result, ok, err,
  Result-cases, >>=-eq-ok, ok_inj, arith,
}
use lean_rust.Types.Ots.{OtsKeyState}
use lean_rust.Maps.BTree.{lookup, insert}
use lean_rust.Ssz.Merkleize.{Sha256}
use lean_rust.Protocol.Vote.{Attestation, Signature}
use lean_rust.Storage.{Backend}
use lean_rust.Storage.Contract.{Contents, Writer, put}
use lean_rust.Runtime.Keys.{Scheme, SigningKey, next_index_of, to_watermark, from_record}
use lean_rust.Runtime.Keys.Once.{from_record-next_index_of}
use lean_rust.Runtime.Signer.{
  SignError, map_err, Secrets, LocalSigner, put_key, resume_record, load_keys, load_resuming,
  local_signer, ots_sign_attestation, read_secret_record, key_restore,
}
use lean_rust.Runtime.Signer.Ahead.{
  next_of, persist_mono, persist-next, map_err-eq-ok, resolve_record-next_index, Ahead,
  insert-Ahead, persist-Ahead, sign_attestation-Uses, watermark_for-insert,
}

-- The duties whose signatures left the node, validator and slot, the newest first.
abbrev pub Released : Type 0
Released = List (ℕ × ℕ)

-- Every slot of `v` lies below `limit`.
abbrev pub Below : ℕ → ℕ → Released → Type 0
Below v limit [] = Unit
Below v limit ((u, slot) ∷ rest) = ((u ≡ v) → slot < limit) × Below v limit rest

-- The slots of one validator strictly rise.
abbrev pub Rises : Released → Type 0
Rises [] = Unit
Rises ((v, slot) ∷ rest) = Below v slot rest × Rises rest

Below-mono : (v a b : ℕ) (r : Released) → a ≤ b → Below v a r → Below v b r
Below-mono v a b [] h below = tt
Below-mono v a b ((u, slot) ∷ rest) h (first, below) =
    ((λ same. omega (arith, h, first same)), Below-mono v a b rest h below)

module _ {K R : Type 0} (scheme : Scheme K R) (sha256 : Sha256) where
  module _ {S E : Type 0} (backend : Backend S E) (view : S → Contents) where
    pub record System : Type 0 where
      pub signer : LocalSigner K
      pub store : S
      pub released : Released

    abbrev pub release : ℕ × ℕ → Result (SignError E) Signature → Released → Released
    release duty (ok signature) released = duty ∷ released
    release duty (err e) released = released

    -- The node signs a vote, and what the guard returns leaves it.
    abbrev pub call : System → Attestation → System
    call sys att =
        let (guard, result) =
          ots_sign_attestation (local_signer scheme sha256) backend (sys.signer, sys.store) att in
        record {
          signer = guard.0;
          store = guard.1;
          released = release (att.validator_id, att.contents.slot) result sys.released;
        }

    -- A call of the guard, another write of the store, or a restart that loses the keys in memory and
    -- resumes from the secret files and the store.
    pub data Step : System → System → Type 0 where
      calls : (sys : System) (att : Attestation) → Step sys (call sys att)
      stores :
          (sys : System) (store : S)
          → (view store).watermarks ≡ (view sys.store).watermarks
          → Step sys (record sys { store = store })
      restarts :
          (sys : System) (secrets : Secrets) (indices : List ℕ) (signer : LocalSigner K)
          → load_resuming scheme sha256 backend secrets indices sys.store ≡ ok signer
          → Step sys (record sys { signer = signer })

    pub data Reach : System → System → Type 0 where
      stays : (sys : System) → Reach sys sys
      steps : (sys sys' sys'' : System) → Reach sys sys' → Step sys' sys'' → Reach sys sys''

    pub record Guarded (sys : System) : Type 0 where
      pub ahead : Ahead (view sys.store).watermarks sys.signer
      pub below : (v : ℕ) → Below v (next_of ((view sys.store).watermarks v)) sys.released
      pub rises : Rises sys.released

    module _ (writer : Writer backend view) where
      resume_record-next_index :
          (store : S) (index : ℕ) (file restored : OtsKeyState)
          → resume_record sha256 backend store index file ≡ ok restored
          → next_of ((view store).watermarks index) ≤ restored.next_index
      unfolding resume_record
      resume_record-next_index store index file restored h =
          let (found, read, resolved) = >>=-eq-ok _ _ h in
          let stored = writer.loads_watermark store index found (map_err-eq-ok _ _ found read) in
          rw (sym stored) (resolve_record-next_index sha256 index file found restored resolved)

      load_keys-Ahead :
          (store : S) (secrets : Secrets) (keys : LocalSigner K) (indices : List ℕ)
          (keys' : LocalSigner K)
          → Ahead (view store).watermarks keys
          → load_keys scheme secrets (resume_record sha256 backend store) keys indices ≡ ok keys'
          → Ahead (view store).watermarks keys'
      unfolding load_keys
      load_keys-Ahead store secrets keys [] keys' ahead h = rw (sym (ok_inj _ _ h)) ahead
      load_keys-Ahead store secrets keys (index ∷ indices) keys' ahead h =
          let (file, _, h1) = >>=-eq-ok (read_secret_record secrets index) _ h in
          let (restored, resumed, h2) =
            >>=-eq-ok (resume_record sha256 backend store index file) _ h1 in
          let (key, made, h3) =
            >>=-eq-ok (map_err (key_restore index) (from_record scheme restored)) _ h2 in
          let next =
            (from_record-next_index_of scheme restored key (map_err-eq-ok _ _ key made)).0 in
          let low = resume_record-next_index store index file restored resumed in
          load_keys-Ahead store secrets (insert index key keys) indices keys'
            (insert-Ahead (view store).watermarks keys index key (omega (arith, next, low)) ahead)
            h3

      Guarded-store :
          (sys : System) (store : S)
          → (view store).watermarks ≡ (view sys.store).watermarks
          → Guarded sys
          → Guarded (record sys { store = store })
      Guarded-store sys store same g = record {
        ahead = rw same g.ahead;
        below = rw same g.below;
        rises = g.rises;
      }

      insert-Guarded :
          (sys : System) (v : ℕ) (key key' : SigningKey K)
          → lookup v sys.signer ≡ some key
          → next_index_of key.last_signed ≤ next_index_of key'.last_signed
          → Guarded sys
          → Guarded (record sys { signer = insert v key' sys.signer })
      insert-Guarded sys v key key' known rises g =
          let low = g.ahead v key known in
          record {
            ahead =
                insert-Ahead (view sys.store).watermarks sys.signer v key'
                  (omega (arith, low, rises)) g.ahead;
            below = g.below;
            rises = g.rises;
          }

      -- A signature of a key whose next index has not passed `slot`, once its watermark is stored.
      persist-Guarded :
          (sys : System) (v slot : ℕ) (key key' : SigningKey K) (store : S)
          → Guarded sys
          → lookup v sys.signer ≡ some key
          → next_index_of key.last_signed ≤ slot
          → next_index_of key'.last_signed ≡ slot + 1
          → (view store).watermarks
            ≡ put (view sys.store).watermarks v (to_watermark scheme sha256 key')
          → Guarded (record {
            signer = insert v key' sys.signer;
            store = store;
            released = (v, slot) ∷ sys.released;
          })
      unfolding to_watermark
      persist-Guarded sys v slot key key' store g known fresh next stored =
          let marks = (view sys.store).watermarks in
          let w = to_watermark scheme sha256 key' in
          let low = g.ahead v key known in
          let mono : (u : ℕ) → next_of (marks u) ≤ next_of ((view store).watermarks u) =
            λ u. rw stored (persist_mono marks v w u (omega (arith, low, fresh, next))) in
          record {
            ahead = rw stored (persist-Ahead marks sys.signer v key' w refl g.ahead);
            below = λ u. (
              (λ same. rw (stored, persist-next marks v w u same) (omega (arith, next))),
              Below-mono u _ _ sys.released (mono u) (g.below u),
            );
            rises =
                (Below-mono v _ _ sys.released (omega (arith, low, fresh)) (g.below v), g.rises);
          }

      call-Guarded : (sys : System) (att : Attestation) → Guarded sys → Guarded (call sys att)
      unfolding ots_sign_attestation put_key
      call-Guarded sys att g =
          let v = att.validator_id in
          elim (sign_attestation-Uses scheme sha256 {E = E} sys.signer att) [
            | inl (e, failed) ↦ rw failed g
            | inr (key, used, known, after, once) ↦ elim (Result-cases used.1) [
              | inr (e, failed) ↦
                  rw (after, failed) (insert-Guarded sys v key used.0 known once.rises g)
              | inl (signature, done) ↦
                  let (fresh, next) = once.fresh signature done in
                  let w = to_watermark scheme sha256 used.0 in
                  elim (writer.saves_watermark sys.store v w) [
                    | inr (e, failed, same) ↦
                        rw
                          (
                            after,
                            done,
                            watermark_for-insert scheme sha256 v used.0 sys.signer,
                            failed,
                          )
                          (Guarded-store (record sys { signer = insert v used.0 sys.signer })
                            (backend.save_ots_key_state sys.store v w).0
                            (ap (λ c. c.watermarks) same)
                            (insert-Guarded sys v key used.0 known once.rises g))
                    | inl (saved, stored) ↦
                        rw
                          (
                            after,
                            done,
                            watermark_for-insert scheme sha256 v used.0 sys.signer,
                            saved,
                          )
                          (persist-Guarded sys v att.contents.slot key used.0
                            (backend.save_ots_key_state sys.store v w).0 g known fresh next
                            (ap (λ c. c.watermarks) stored))
                  ]
            ]
          ]

      load_resuming-Ahead :
          (store : S) (secrets : Secrets) (indices : List ℕ) (keys : LocalSigner K)
          → load_resuming scheme sha256 backend secrets indices store ≡ ok keys
          → Ahead (view store).watermarks keys
      unfolding load_resuming lookup
      load_resuming-Ahead store secrets indices keys loaded =
          load_keys-Ahead store secrets [] indices keys (λ v key found. cc) loaded

      Step-Guarded : (sys sys' : System) → Step sys sys' → Guarded sys → Guarded sys'
      Step-Guarded sys sys' (calls s att) g = call-Guarded s att g
      Step-Guarded sys sys' (stores s store same) g = Guarded-store s store same g
      Step-Guarded sys sys' (restarts s secrets indices signer resumed) g = record {
        ahead = load_resuming-Ahead s.store secrets indices signer resumed;
        below = g.below;
        rises = g.rises;
      }

      Reach-Guarded : (sys sys' : System) → Reach sys sys' → Guarded sys → Guarded sys'
      Reach-Guarded sys sys' (stays s) g = g
      Reach-Guarded sys sys' (steps s t u before step) g =
          Step-Guarded t u step (Reach-Guarded s t before g)

      -- A node starts with keys that it resumed from its secret files and its store, and goes through any
      -- votes that it signs behind the guard, any other writes of the store and any restarts, each of
      -- which resumes from the store. Then the slots of the signatures that it has released for one
      -- validator strictly rise: no one-time key has signed twice for the outside.
      pub ots_sign_attestation-Rises :
          (secrets : Secrets) (indices : List ℕ) (signer : LocalSigner K) (store : S) (sys : System)
          → load_resuming scheme sha256 backend secrets indices store ≡ ok signer
          → Reach (record { signer = signer; store = store; released = [] }) sys
          → Rises sys.released
      ots_sign_attestation-Rises secrets indices signer store sys loaded reach =
          (Reach-Guarded _ sys reach (record {
            ahead = load_resuming-Ahead store secrets indices signer loaded;
            below = λ v. tt;
            rises = tt;
          })).rises
