-- ===== src/Beacon/Heap.antt =====
-- The objects that the pointers of beacon/ lead to. A pointer that is not nil is a number; Go
-- never frees an object that a pointer still reaches, so a read always succeeds.
use osha.Base.{ℕ, suc, nat_beq, if◌then◌else◌}
use osha.Beacon.Validator.{Validator}
use osha.Beacon.Deposit.{Deposit}

-- `next` is the first number that points to no validator yet. The callers allocate the deposits.
pub record Heap : Type 0 where
  pub next : ℕ
  pub validator : ℕ → Validator
  pub deposit : ℕ → Deposit

-- `*p = v`
unfoldable pub write : ℕ → Validator → Heap → Heap
write p v h = record h { validator = λ q. if nat_beq p q then v else h.validator q }

-- `&Validator{...}`, whose pointer is the old `next`.
unfoldable pub alloc : Validator → Heap → Heap
unfolding write
alloc v h = record (write h.next v h) { next = suc h.next }

-- A mutating method through a pointer.
unfoldable pub modify : ℕ → (Validator → Validator) → Heap → Heap
unfolding write
modify p f h = write p (f (h.validator p)) h
