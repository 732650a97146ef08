-- ===== src/Runtime/Keys/Window.antt =====
-- crates/crypto/src/key_state.rs: `prepare` moves the window until it covers an epoch.
use lean_rust.Prelude.{
  ℕ, zero, suc, ◌+◌, ◌-◌, ◌≤◌, ◌<◌, ◌≡◌, refl, ◌∙◌, ap, inl, inr, true, false, Bool-cases, le→ltb,
  ok, arith,
}
use lean_rust.Runtime.Keys.{
  Range, contains, same_range, Scheme, SigningKey, activation_interval, prepared_interval, advance,
  prepare_loop, prepare,
}

abbrev pub Within : ℕ → Range → Type 0
Within x r = (r.start ≤ x) × (x < r.end)

pub Within-contains : (r : Range) (x : ℕ) → Within x r → contains r x ≡ true
unfolding contains
Within-contains r x h = ground (arith, h)

pub contains-Within : (r : Range) (x : ℕ) → contains r x ≡ true → Within x r
unfolding contains
contains-Within r x h = ground (arith, h)

-- A range that starts at or below `x` and does not hold it ends at or below it.
uncovered-end : (r : Range) (x : ℕ) → r.start ≤ x → contains r x ≡ false → r.end ≤ x
unfolding contains
uncovered-end r x low out = ground (arith, low, out)

moved-differs : (r r' : Range) → r.start < r'.start → same_range r' r ≡ false
moved-differs r r' moved = ground (arith, moved)

module _ {K R : Type 0} (scheme : Scheme K R) where
  -- What the library documents of `advance_preparation`: it keeps the activation interval, and short of
  -- that interval's end it moves the window right without a gap.
  pub record Slides : Type 0 where
    pub keeps_activation : (k : K) → scheme.activation (scheme.advance k) ≡ scheme.activation k
    pub moves :
        (k : K)
        → (scheme.prepared k).end < (scheme.activation k).end
        → ((scheme.prepared k).start < (scheme.prepared (scheme.advance k)).start)
          × ((scheme.prepared (scheme.advance k)).start ≤ (scheme.prepared k).end)

  -- `key'` is `key` with a window that covers `epoch`.
  pub record Reaches (key : SigningKey K) (epoch : ℕ) (key' : SigningKey K) : Type 0 where
    pub covers : Within epoch (scheme.prepared key'.secret)
    pub activation : scheme.activation key'.secret ≡ scheme.activation key.secret
    pub last_signed : key'.last_signed ≡ key.last_signed
    pub seed : key'.seed ≡ key.seed

  -- The window stays behind `epoch`, with fuel for every step to the end of the interval.
  abbrev Behind : ℕ → SigningKey K → ℕ → Type 0
  Behind fuel key epoch =
      ((scheme.prepared key.secret).start ≤ epoch)
      × (epoch < (scheme.activation key.secret).end)
      × ((scheme.activation key.secret).end < fuel + (scheme.prepared key.secret).start)

  prepare_loop-Reaches :
      (fuel : ℕ) (key : SigningKey K) (epoch : ℕ)
      → Slides
      → Behind fuel key epoch
      → (key' : SigningKey K) × (prepare_loop scheme fuel key epoch ≡ (key', ok tt))
        × Reaches key epoch key'
  unfolding prepare_loop prepared_interval advance
  prepare_loop-Reaches zero key epoch slides (low, high, fuelled) =
      absurd (omega (arith, low, high, fuelled))
  prepare_loop-Reaches (suc fuel) key epoch slides (low, high, fuelled) =
      elim (Bool-cases (contains (scheme.prepared key.secret) epoch)) [
        | inl covered ↦ (
          key,
          rw covered refl,
          record {
            covers = contains-Within _ epoch covered;
            activation = refl;
            last_signed = refl;
            seed = refl;
          },
        )
        | inr uncovered ↦
            let ends = uncovered-end (scheme.prepared key.secret) epoch low uncovered in
            let (moved, no_gap) = slides.moves key.secret (omega (arith, ends, high)) in
            let same_end = ap (λ r. r.end) (slides.keeps_activation key.secret) in
            let (key', reached, reaches) =
              prepare_loop-Reaches fuel (advance scheme key) epoch slides (
                omega (arith, no_gap, ends),
                rw same_end high,
                rw same_end (omega (arith, moved, fuelled)),
              ) in
            (
              key',
              rw
                  (
                    uncovered,
                    moved-differs (scheme.prepared key.secret)
                        (scheme.prepared (scheme.advance key.secret)) moved,
                  )
                  reached,
              record {
                covers = reaches.covers;
                activation = reaches.activation ∙ slides.keeps_activation key.secret;
                last_signed = reaches.last_signed;
                seed = reaches.seed;
              },
            )
      ]

  -- With a window that slides through the activation interval, `prepare` reaches every epoch of the
  -- interval that the window has not passed: it returns, and does not fail. The activation interval, the
  -- last signed epoch and the seed stay as they were.
  pub prepare-Reaches :
      (key : SigningKey K) (epoch : ℕ)
      → Slides
      → Within epoch (activation_interval scheme key)
      → (prepared_interval scheme key).start ≤ epoch
      → (key' : SigningKey K) × (prepare scheme key epoch ≡ (key', ok tt)) × Reaches key epoch key'
  unfolding prepare prepared_interval activation_interval
  prepare-Reaches key epoch slides active ahead =
      let (key', reached, reaches) =
        prepare_loop-Reaches
          (suc (scheme.activation key.secret).end - (scheme.prepared key.secret).start) key epoch
          slides (ahead, active.1, omega (arith, active, ahead)) in
      (
        key',
        rw
            (
              Within-contains (scheme.activation key.secret) epoch active,
              le→ltb epoch (scheme.prepared key.secret).start ahead,
            )
            reached,
        reaches,
      )
