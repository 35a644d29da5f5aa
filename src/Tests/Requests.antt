-- ===== src/Tests/Requests.antt =====
-- The HTTP server at small inputs.
use network_program.Prelude.{ℕ, ◌≡◌, refl, ◌≢◌, List, [], ◌∷◌, arith}
use network_program.Integer.{pos}
use network_program.Http.{str, HeaderField, Request, exits, no_fuel, ok}
use network_program.Http.Number.{decimal}
use network_program.Http.Read.{read_request, request_of}
use network_program.Http.Read.Bounds.{read_request-ne-no_fuel}
use network_program.Http.Read.Fields.{IsField, linked}
use network_program.Http.Read.LengthField.{length_field}
use network_program.Http.Read.RoundTrip.{
  IsRequestLine, write_request, line_as_read, read_request-write_request,
}

-- POST /f HTTP/1.1, Content-Length: 2, and three bytes behind the header.
abbrev post_text : List ℕ
post_text = str "post /f HTTP/1.1\r\nContent-Length: 2\r\n\r\nabc"

abbrev post_request : Request
post_request = record {
  protocol_minor_version = pos 1;
  method = str "POST";
  path = str "/f";
  header = record { name = str "Content-Length"; value = str "2\r\n" } ∷ [];
  body = str "ab";
  length_of_body = 2;
}

read_request-ne-no_fuel_example : read_request post_text ≢ exits no_fuel
read_request-ne-no_fuel_example = read_request-ne-no_fuel post_text

abbrev host : HeaderField
host = record { name = str "Host"; value = str "a" }

host-IsField : IsField host
host-IsField = record {
  name_clean = record { non_nul = omega arith; no_newline = ground arith };
  value_clean = record { non_nul = omega arith; no_newline = ground arith };
  no_colon = ground arith;
  name_ne_nil = λ p. cc;
  no_blank = refl;
  fits = omega arith;
}

put-IsRequestLine : IsRequestLine (str "put") (str "/f") 1
unfolding decimal
put-IsRequestLine = record {
  method_clean = record { non_nul = omega arith; no_newline = ground arith };
  path_clean = record { non_nul = omega arith; no_newline = ground arith };
  method_no_space = ground arith;
  path_no_space = ground arith;
  minor_small = omega arith;
  fits = omega arith;
}

read_request-write_request_example :
    read_request (write_request (str "put") (str "/f") 1 (host ∷ []) (str "ab") (str "c"))
    ≡ ok (
      request_of
          (line_as_read (str "put") (str "/f") 1)
          (linked (host ∷ length_field 2 ∷ []) [])
          2
          (str "ab"),
      str "c",
    )
read_request-write_request_example =
    read_request-write_request (str "put") (str "/f") 1 (host ∷ []) (str "ab") (str "c")
      put-IsRequestLine (host-IsField, tt) (omega arith)
