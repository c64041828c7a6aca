-- ===== src/Routes/Errors.antt =====
-- app/main.py: the one form in which every endpoint answers an error.
use hotels_aggregator.Prelude.{ℕ, String, Option, none, some, List, [], ◌∷◌, ◌⊎◌, inl, inr}
use hotels_aggregator.Prelude.Tests.{◌==◌, string_eq, nat_beq, if◌then◌else◌}
use hotels_aggregator.Text.{◌<>◌, nonempty}
use hotels_aggregator.Json.{Json}
use hotels_aggregator.Exceptions.{
  Exn, http_exception, Detail, plain, coded, coded_with, HttpException,
}
use hotels_aggregator.Outside.{Outside}
use hotels_aggregator.Exec.{Exec, pure, throw, catch, calls, ◌>>=◌}

pub record ErrorAnswer : Type 0 where
  pub status_code : ℕ
  pub code : String
  pub message : String
  pub trace_id : String

-- `_STATUS_CODES.get(status, "ERROR")`
unfoldable pub status_codes : ℕ → String
status_codes status =
    if nat_beq status 400
    then "VALIDATION_ERROR"
    else if nat_beq status 401
    then "UNAUTHORIZED"
    else if nat_beq status 403
    then "FORBIDDEN"
    else if nat_beq status 404
    then "NOT_FOUND"
    else if nat_beq status 409
    then "CONFLICT"
    else if nat_beq status 422
    then "VALIDATION_ERROR"
    else if nat_beq status 500
    then "INTERNAL_ERROR"
    else if nat_beq status 503
    then "SERVICE_UNAVAILABLE"
    else "ERROR"

-- One entry of `exc.errors()`: `loc` with its parts as texts, and `msg`.
pub record ValidationIssue : Type 0 where
  pub loc : List String
  pub msg : Option String

-- `".".join(str(p) for p in loc if p != "body")`
unfoldable pub join_dots : List String → String
join_dots [] = ""
join_dots (p ∷ []) = p
join_dots (p ∷ ps) = p <> "." <> join_dots ps

unfoldable pub path_of : List String → List String
path_of [] = []
path_of (p ∷ ps) = let rest = path_of ps in if p == "body" then rest else p ∷ rest

unfoldable pub issue_message : (field : String) → (msg : Option String) → String
issue_message field none = if nonempty field then field <> ": None" else "Validation failed"
issue_message field (some m) =
    if nonempty field then field <> ": " <> m else if nonempty m then m else "Validation failed"

-- The message on the first error, if there is one.
unfoldable pub validation_message : List ValidationIssue → String
validation_message [] = "Validation failed"
validation_message (first ∷ _) = issue_message (join_dots (path_of first.loc)) first.msg

module _ (O : Outside) (str : Json → String) where
  open O use {State, uuid4, uuid_text}

  -- `_error`
  unfoldable pub error_answer : (status : ℕ) → (code message : String) → Exec State ErrorAnswer
  error_answer status code message = do
    id ← calls uuid4
    pure (record { status_code = status; code = code; message = message; trace_id = uuid_text id })

  -- The code and the message of an exception.
  unfoldable pub told : (status : ℕ) → Detail → String × String
  told status (plain s) = (status_codes status, s)
  told status (coded code message) = (str code, str message)
  told status (coded_with code message _) = (str code, str message)

  -- `http_exception_handler`
  unfoldable pub http_exception_handler : HttpException → Exec State ErrorAnswer
  unfolding told error_answer
  http_exception_handler exc =
      error_answer exc.status_code (told exc.status_code exc.detail).0
        (told exc.status_code exc.detail).1

  -- `validation_exception_handler`
  unfoldable pub validation_exception_handler : List ValidationIssue → Exec State ErrorAnswer
  unfolding error_answer
  validation_exception_handler errors =
      error_answer 422 "VALIDATION_ERROR" (validation_message errors)

  -- The handler of an endpoint's HTTPException; another exception leaves as it is.
  unfoldable pub on_http_exception : {A : Type 0} → Exn → Exec State (A ⊎ ErrorAnswer)
  unfolding http_exception_handler
  on_http_exception (http_exception exc) = do a ← http_exception_handler exc; pure (inr a)
  on_http_exception e = throw e

  -- `app.exception_handler(HTTPException)`: what an endpoint answers.
  unfoldable pub answered : {A : Type 0} → Exec State A → Exec State (A ⊎ ErrorAnswer)
  unfolding on_http_exception
  answered m = catch (m >>= λ a. pure (inl a)) on_http_exception
