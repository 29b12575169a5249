-- ===== src/Beacon/Database/Deposits.antt =====
-- The pending deposits of beacon/db/database.go, which are told apart by their pointers.
use mathlib.Core.List.{append-nil}
use osha.Base.{
  ℕ, ◌≡◌, ◌≢◌, ◌⊎◌, inl, inr, refl, List, [], ◌∷◌, ◌++◌, ok, panic, All, arith, ap, ap₂, ◌∙◌, count,
  nat_beq, if◌then◌else◌,
}
use osha.Beacon.Database.{Database, add_pending_deposit, remove_pending_deposit, without}

without_absent : (d : ℕ) (ds : List ℕ) → All (λ e. e ≢ d) ds → without d ds ≡ ds
unfolding without
without_absent d [] a = refl
without_absent d (e ∷ ds) a = ground (arith, without_absent d ds a.1, a.0)

without-append : (d : ℕ) (ds es : List ℕ) → without d (ds ++ es) ≡ without d ds ++ without d es
unfolding without
without-append d [] es = refl
without-append d (e ∷ ds) es = ground (arith, without-append d ds es)

without_self : (d : ℕ) → without d (d ∷ []) ≡ []
unfolding without
without_self d = ground arith

restored :
    (d : ℕ) (db : Database) (ds : List ℕ)
    → All (λ e. e ≢ d) ds
    → remove_pending_deposit d (record db { pending_deposits = ds ++ d ∷ [] })
      ≡ ok (record db { pending_deposits = ds })
unfolding remove_pending_deposit
restored d db [] a = ground arith
restored d db (e ∷ ds) a =
    let gone : without d ((e ∷ ds) ++ d ∷ []) ≡ e ∷ ds =
      without-append d (e ∷ ds) (d ∷ [])
      ∙ ap₂ ◌++◌ (without_absent d (e ∷ ds) a) (without_self d)
      ∙ append-nil (e ∷ ds) in
    ap (λ (l : List ℕ). ok (record db { pending_deposits = l })) gone

-- Removing a deposit that was just added, and was not pending before, restores the database.
pub remove-add_pending_deposit :
    (d : ℕ) (db : Database)
    → All (λ e. e ≢ d) db.pending_deposits
    → remove_pending_deposit d (add_pending_deposit d db) ≡ ok db
unfolding add_pending_deposit
remove-add_pending_deposit d db a = restored d db db.pending_deposits a

count-without :
    (x d : ℕ) (ds : List ℕ) → count x (without d ds) ≡ (if nat_beq x d then 0 else count x ds)
unfolding without
count-without x d [] = ground arith
count-without x d (e ∷ ds) = ground (arith, count-without x d ds)

removed :
    (d : ℕ) (db : Database) (ds : List ℕ)
    → db.pending_deposits ≡ ds
    → ((ds ≡ []) × (remove_pending_deposit d db ≡ panic))
      ⊎ ((ds ≢ [])
          × ((es : List ℕ) × (remove_pending_deposit d db
                ≡ ok (record db { pending_deposits = es }))
              × ((x : ℕ) → count x es ≡ (if nat_beq x d then 0 else count x ds))))
unfolding remove_pending_deposit
removed d db [] e = inl (refl, ground arith)
removed d db (a ∷ ds) e =
    inr (λ p. cc, (without d (a ∷ ds), ground arith, λ x. count-without x d (a ∷ ds)))

-- Removing panics exactly when no deposit is pending. Else it returns the database in which the
-- deposit is no longer pending, each other deposit is pending as often as before, and all that is
-- not a pending deposit is unchanged.
pub remove_pending_deposit_lem :
    (d : ℕ) (db : Database)
    → ((db.pending_deposits ≡ []) × (remove_pending_deposit d db ≡ panic))
      ⊎ ((db.pending_deposits ≢ [])
          × ((ds : List ℕ) × (remove_pending_deposit d db
                ≡ ok (record db { pending_deposits = ds }))
              × ((x : ℕ) → count x ds ≡ (if nat_beq x d then 0 else count x db.pending_deposits))))
remove_pending_deposit_lem d db = removed d db db.pending_deposits refl
