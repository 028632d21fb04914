-- ===== src/Best/Exchange.antt =====
-- crates/best/src/exchange.rs: the seam that a job's telegrams leave through. A trait object with
-- `&self` is a function on the state `S` behind it: the transport, and with it the car, is a
-- parameter of the development. `MockExchange` is the table of canned answers of the offline runs.
use klartext.Prelude.{
  ℕ, Bool, true, false, ◌&&◌, List, [], ◌∷◌, Option, none, some, ◌==◌, if◌then◌else◌, Result, ok_or,
}

pub data ExchangeError : Type 0 where
  unexpected : List ℕ → ExchangeError
  refused : (sid : ℕ) → (frame : List ℕ) → ExchangeError
  transport : List ℕ → ExchangeError

-- `UdsExchange::request(&self, target, uds)`.
abbrev pub UdsExchange : Type 0 → Type 0
UdsExchange S = S → ℕ → List ℕ → Result ExchangeError (List ℕ) × S

-- Equality of byte strings.
unfoldable pub bytes_eq : List ℕ → List ℕ → Bool
bytes_eq [] [] = true
bytes_eq [] (y ∷ ys) = false
bytes_eq (x ∷ xs) [] = false
bytes_eq (x ∷ xs) (y ∷ ys) = x == y && bytes_eq xs ys

-- The map of canned answers, an association list with one entry for each request.
abbrev pub MockExchange : Type 0
MockExchange = List (List ℕ × List ℕ)

-- `HashMap::insert`: a later answer for the same bytes replaces the earlier one.
unfoldable pub on : MockExchange → List ℕ → List ℕ → MockExchange
on [] request response = (request, response) ∷ []
on ((k, v) ∷ m) request response =
    if bytes_eq k request then (request, response) ∷ m else (k, v) ∷ on m request response

unfoldable pub get : MockExchange → List ℕ → Option (List ℕ)
get [] uds = none
get ((k, v) ∷ m) uds = if bytes_eq k uds then some v else get m uds

unfoldable pub mock_request : UdsExchange MockExchange
mock_request m target uds = (ok_or (get m uds) (unexpected uds), m)
