-- ===== src/Beacon/Validator/Slashing.antt =====
-- What `Slash` of beacon/db/validator.go promises.
use osha.Base.{
  ℕ, ◌-◌, ◌<◌, ◌≡◌, ap, ◌∙◌, ◌⊎◌, inl, inr, Bool-cases, refl, true, text_beq, text_beq_iff, ok,
  fail, arith, u64_mod,
}
use osha.Beacon.External.{Packages, DistinctStates}
use osha.Beacon.Validator.{Validator, not_slashable, set_status, punish, slash}

module _ (core : Packages) where
  -- The states in which a validator can be slashed.
  abbrev pub IsSlashable : Validator → Type 0
  IsSlashable v = (v.status ≡ core.active_ongoing) ⊎ (v.status ≡ core.active_exiting)

  -- `slash` fails, naming the public key, on a validator that is not slashable, and on a slashable
  -- one it returns a slashed validator, whatever the penalty; it never panics.
  pub slash_total :
      (penalty : ℕ) (v : Validator)
      → (¬ IsSlashable v × (slash core penalty v ≡ fail (not_slashable v.pubkey)))
        ⊎ (IsSlashable v
            × ((w : Validator) × (slash core penalty v ≡ ok w)
                × (w.slashed ≡ true)
                × (w.status ≡ core.active_slashed)))
  unfolding slash
  slash_total penalty v = elim (Bool-cases (text_beq v.status core.active_ongoing)) [
    | inl a ↦ inr (inl ((text_beq_iff _ _).0 a), (punish core penalty v, rw a, refl, refl))
    | inr a ↦ elim (Bool-cases (text_beq v.status core.active_exiting)) [
      | inl b ↦ inr (inr ((text_beq_iff _ _).0 b), (punish core penalty v, rw (a, b), refl, refl))
      | inr b ↦ inl (
        elim [
          | inl p ↦ cc ((text_beq_iff v.status core.active_ongoing).1 p)
          | inr p ↦ cc ((text_beq_iff v.status core.active_exiting).1 p)
        ],
        rw (a, b),
      )
    ]
  ]

  slashed_status :
      (penalty : ℕ) (v w : Validator) → slash core penalty v ≡ ok w → w.status ≡ core.active_slashed
  slashed_status penalty v w h = elim (slash_total penalty v) [
    | inl (_, e) ↦ absurd (cc (h, e))
    | inr (_, (x, e, _, status)) ↦
        let same : w ≡ x = cc (h, e) in ap (λ (y : Validator). y.status) same ∙ status
  ]

  -- Where the library's states are different, what `slash` returned cannot be slashed again, with
  -- whatever penalty and however its other fields have changed, as long as it keeps its status. Only the
  -- status is in the way: once this is set to the ongoing one again, another `slash` succeeds.
  pub slash_twice :
      DistinctStates core
      → (penalty again : ℕ) (v w later : Validator) → slash core penalty v ≡ ok w
      → later.status ≡ w.status
      → (slash core again later ≡ fail (not_slashable later.pubkey))
        × ((x : Validator) × (slash core again (set_status core.active_ongoing later) ≡ ok x)
            × (x.slashed ≡ true)
            × (x.status ≡ core.active_slashed))
  unfolding slash set_status
  slash_twice d penalty again v w later h kept =
      let status : later.status ≡ core.active_slashed = kept ∙ slashed_status penalty v w h in
      (
        ground (
          arith,
          status,
          d.slashed_ongoing,
          d.slashed_exiting,
          text_beq_iff core.active_slashed core.active_ongoing,
          text_beq_iff core.active_slashed core.active_exiting,
        ),
        (
          punish core again (set_status core.active_ongoing later),
          rw ((text_beq_iff core.active_ongoing core.active_ongoing).1 refl),
          refl,
          refl,
        ),
      )

  -- The balance is not checked against the penalty: a larger penalty wraps the balance around.
  pub slash_wraps :
      (penalty : ℕ) (v w : Validator)
      → v.balance < penalty
      → penalty < u64_mod
      → slash core penalty v ≡ ok w
      → w.balance ≡ u64_mod - (penalty - v.balance)
  unfolding slash
  slash_wraps penalty v w gt lt h = ground arith
