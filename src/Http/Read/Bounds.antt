-- ===== src/Http/Read/Bounds.antt =====
-- What a request that was read is, whatever the client sent.
use network_program.Prelude.{
  ℕ, suc, ◌+◌, ◌≤◌, ◌≡◌, ◌≢◌, inl, inr, List, [], arith, Option-cases, length, take, drop,
}
use network_program.Http.{
  HeaderField, Request, no_fuel, ok, exits, >>>-ne-exits, max_request_body_length,
}
use network_program.Http.Read.{
  fgets, read_header, read_request_line, parse_request_line, content_length, read_body,
  read_request,
}
use network_program.Http.Read.Header.{EndsHeader}
use network_program.Http.Read.Total.{read_header-ne-no_fuel}

-- What a successful `read_request` has done: the header ends in front of place `at` of the input, with
-- the first empty line behind the request line; the body follows there, has the length that the header
-- states, at most 1 MiB, and the rest of the input is left.
pub record IsRead (input : List ℕ) (req : Request) (rest : List ℕ) : Type 0 where
  pub at : ℕ
  pub header_ends : EndsHeader input (drop at input)
  pub inside : at + req.length_of_body ≤ length input
  pub body_is : req.body ≡ take req.length_of_body (drop at input)
  pub rest_is : rest ≡ drop (at + req.length_of_body) input
  pub stated : content_length req.header ≡ ok req.length_of_body
  pub bounded : req.length_of_body ≤ max_request_body_length

parse_request_line-ne-no_fuel : (buf : List ℕ) → parse_request_line buf ≢ exits no_fuel
unfolding parse_request_line
parse_request_line-ne-no_fuel buf = ground arith

read_request_line-ne-no_fuel : (input : List ℕ) → read_request_line input ≢ exits no_fuel
unfolding read_request_line
read_request_line-ne-no_fuel input e = elim (Option-cases (fgets input)) [
  | inl eof ↦ cc (rw (eof, read_request_line) at e)
  | inr ((buf, rest), line) ↦
      >>>-ne-exits (parse_request_line buf) (λ k. ok (k, rest)) (parse_request_line-ne-no_fuel buf)
        (λ a _ p. cc) (rw (line, read_request_line) at e)
]

content_length-ne-no_fuel : (header : List HeaderField) → content_length header ≢ exits no_fuel
unfolding content_length
content_length-ne-no_fuel header = ground arith

read_body-ne-no_fuel : (n : ℕ) (input : List ℕ) → read_body n input ≢ exits no_fuel
unfolding read_body
read_body-ne-no_fuel n input = ground arith

-- Whatever the input, `read_request` ends: its fuel, one more than the bytes behind the request line,
-- is never used up.
pub read_request-ne-no_fuel : (input : List ℕ) → read_request input ≢ exits no_fuel
unfolding read_request
read_request-ne-no_fuel input =
    >>>-ne-exits (read_request_line input) _ (read_request_line-ne-no_fuel input) λ (l, rest) _.
      >>>-ne-exits (read_header (suc (length rest)) [] rest) _
        (read_header-ne-no_fuel (suc (length rest)) [] rest (omega arith))
        λ (header, rest') _.
          >>>-ne-exits (content_length header) _ (content_length-ne-no_fuel header)
            λ n _. >>>-ne-exits (read_body n rest') _ (read_body-ne-no_fuel n rest') λ _ _ e. cc
