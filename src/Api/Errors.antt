-- ===== src/Api/Errors.antt =====
-- Errors as the code tells them apart: those of the API server by their reason, and those that the
-- code makes, with the text of their format (the arguments of the format are left out).
use konductor.Prelude.{◌≡◌, refl, ◌⊎◌, inl, inr, Bool, true, false, String}

pub data Error : Type 0 where
  not_found conflict already_exists : Error
  -- any other refusal of the server, and a failed connection
  server : String → Error
  -- `wait.ErrWaitTimeout`, and the error of a cancelled context
  timed_out cancelled : Error
  -- a panic, which no code of the program recovers from
  panicked : Error
  -- `fmt.Errorf` with no `%w`, and with one
  errorf : String → Error
  wrap : String → Error → Error

pub data Result (A : Type 0) : Type 0 where
  ok : A → Result A
  err : Error → Result A

pub Result-cases :
    {A : Type 0} (r : Result A) → ((e : Error) × (r ≡ err e)) ⊎ ((a : A) × (r ≡ ok a))
Result-cases (err e) = inl (e, refl)
Result-cases (ok a) = inr (a, refl)

-- `errors.IsNotFound` and its like look through `%w`.
abbrev pub is_not_found : Error → Bool
is_not_found not_found = true
is_not_found (wrap s e) = is_not_found e
is_not_found _ = false

abbrev pub is_conflict : Error → Bool
is_conflict conflict = true
is_conflict (wrap s e) = is_conflict e
is_conflict _ = false

abbrev pub is_already_exists : Error → Bool
is_already_exists already_exists = true
is_already_exists (wrap s e) = is_already_exists e
is_already_exists _ = false

-- Whether the call ended in a panic: then no code after it runs.
abbrev pub is_panic : Error → Bool
is_panic panicked = true
is_panic (wrap s e) = is_panic e
is_panic _ = false
