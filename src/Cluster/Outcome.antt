-- ===== src/Cluster/Outcome.antt =====
-- A Go call: it returns a value, returns an error, or panics, and what it wrote before stays.
use cloudrun.Base.{String, ◌<>◌, Bool, true, false, Option, none, some}

-- What the code asks of an error: `apierrors.IsNotFound`, `IsConflict`, or neither.
pub data Reason : Type 0 where
  not_found conflict other : Reason

pub record Error : Type 0 where
  pub reason : Reason
  pub message : String

abbrev pub is_not_found : Error → Bool
is_not_found e = elim e.reason [ not_found ↦ true | _ ↦ false ]

abbrev pub is_conflict : Error → Bool
is_conflict e = elim e.reason [ conflict ↦ true | _ ↦ false ]

-- `errors.Wrap`: a message in front; the cause, and so its reason, is still seen.
abbrev pub wrap_error : String → Error → Error
wrap_error text e = record e { message = text <> (": " <> e.message) }

-- `errors.New`, `fmt.Errorf`
abbrev pub new_error : String → Error
new_error text = record { reason = other; message = text }

abbrev pub nil_pointer : Error
nil_pointer = new_error "runtime error: invalid memory address or nil pointer dereference"

abbrev pub out_of_range : Error
out_of_range = new_error "runtime error: index out of range"

abbrev pub nil_map : Error
nil_map = new_error "assignment to entry in nil map"

pub data Outcome (A : Type 0) : Type 0 where
  ok : A → Outcome A
  err : Error → Outcome A
  panic : Error → Outcome A

-- A call over a state.
abbrev pub Action : Type 0 → Type 0 → Type 0
Action S A = S → Outcome A × S

module _ {S A : Type 0} where
  abbrev pub pure : A → Action S A
  pure a s = (ok a, s)

  abbrev pub fail : Error → Action S A
  fail e s = (err e, s)

  abbrev pub panics : Error → Action S A
  panics e s = (panic e, s)

  abbrev pub gets : (S → A) → Action S A
  gets f s = (ok (f s), s)

  -- A read through a pointer.
  abbrev pub deref : Option A → Action S A
  deref none = panics nil_pointer
  deref (some a) = pure a

  abbrev pub lift : Outcome A → Action S A
  lift r s = (r, s)

-- What follows on a call, by how it ended.
abbrev pub proceed : {S A B : Type 0} → (A → Action S B) → Outcome A × S → Outcome B × S
proceed f (ok a, s) = f a s
proceed f (err e, s) = (err e, s)
proceed f (panic e, s) = (panic e, s)

infixl 5 ◌>>=◌ ◌>>◌
abbrev pub ◌>>=◌ : {S A B : Type 0} → Action S A → (A → Action S B) → Action S B
◌>>=◌ m f s = proceed f (m s)

abbrev pub ◌>>◌ : {S A B : Type 0} → Action S A → Action S B → Action S B
m >> k = m >>= λ _. k

abbrev pub modify : {S : Type 0} → (S → S) → Action S (Unit {0})
modify f s = (ok tt, f s)

abbrev pub done : {S : Type 0} → Action S (Unit {0})
done s = (ok tt, s)

-- An error that the caller looks at.
pub data Reply (A : Type 0) : Type 0 where
  got : A → Reply A
  failed : Error → Reply A

abbrev pub replied : {A : Type 0} → Outcome A → Outcome (Reply A)
replied (ok a) = ok (got a)
replied (err e) = ok (failed e)
replied (panic e) = panic e

abbrev pub attempt : {S A : Type 0} → Action S A → Action S (Reply A)
attempt m s = let (r, s') = m s in (replied r, s')

-- `if err != nil { return errors.Wrap(err, text) }`
abbrev pub wrapped : {A : Type 0} → String → Outcome A → Outcome A
wrapped text (ok a) = ok a
wrapped text (err e) = err (wrap_error text e)
wrapped text (panic e) = panic e

abbrev pub or_wrap : {S A : Type 0} → String → Action S A → Action S A
or_wrap text m s = let (r, s') = m s in (wrapped text r, s')

-- `err`, or none where a call returned a value.
abbrev pub error_of : {A : Type 0} → Outcome A → Option Error
error_of (ok _) = none
error_of (err e) = some e
error_of (panic _) = none

abbrev pub is_panic : {A : Type 0} → Outcome A → Bool
is_panic (ok _) = false
is_panic (err _) = false
is_panic (panic _) = true
