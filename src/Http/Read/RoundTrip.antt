-- ===== src/Http/Read/RoundTrip.antt =====
-- A request that a client writes out is read as it was meant.
use network_program.Prelude.{
  ℕ, suc, ◌+◌, ◌-◌, ◌^◌, ◌≤◌, ◌<◌, ◌≡◌, refl, sym, true, false, List, [], ◌∷◌, ◌++◌, append_assoc,
  arith, ltb, ◌==◌, ge→ltb, ne→==, length, All, length-append, take-append, drop-append, All-append,
}
use mathlib.Core.Path.{ap₂}
use network_program.Http.{HeaderField, ok, line_buf_size, max_request_body_length, upcase}
use network_program.Http.Number.{decimal}
use network_program.Http.Number.Laws.{atol-decimal, to_int-nonneg}
use network_program.Integer.{pos}
use network_program.Http.Read.{
  http_prefix, has_prefix, read_header, RequestLine, read_request_line, parse_request_line,
  content_length, read_body, request_of, read_request,
}
use network_program.Http.Read.Fields.{
  crlf, IsClean, Lacks, IsClean-append, IsClean-cons, fgets-line, split_at-append, IsField, as_read,
  linked, write_header, read_header-linked, length-write_header,
}
use network_program.Http.Read.LengthField.{
  length_field, decimal-IsClean, content_length-length_field, length_field-IsField,
}

-- A request line as a client sends it.
pub record IsRequestLine (method path : List ℕ) (minor : ℕ) : Type 0 where
  pub method_clean : IsClean method
  pub path_clean : IsClean path
  pub method_no_space : Lacks b' ' method
  pub path_no_space : Lacks b' ' path
  pub minor_small : minor < 2 ^ 31
  pub fits : length method + length path + length (decimal minor) + 11 < line_buf_size

abbrev pub write_request_line : List ℕ → List ℕ → ℕ → List ℕ → List ℕ
write_request_line method path minor rest =
    method ++ b' ' ∷ (path ++ b' ' ∷ (http_prefix ++ (decimal minor ++ rest)))

has_prefix-http_prefix : (p : List ℕ) → has_prefix http_prefix (http_prefix ++ p) ≡ true
unfolding has_prefix
has_prefix-http_prefix p = refl

abbrev pub line_as_read : List ℕ → List ℕ → ℕ → RequestLine
line_as_read method path minor = record {
  method = upcase method;
  path = path;
  protocol_minor_version = pos minor;
}

parse_request_line-as_read :
    (method path : List ℕ) (minor : ℕ)
    → IsRequestLine method path minor
    → parse_request_line (write_request_line method path minor crlf)
      ≡ ok (line_as_read method path minor)
unfolding parse_request_line
parse_request_line-as_read method path minor r =
    let tail = http_prefix ++ (decimal minor ++ crlf) in
    rw (
      split_at-append b' ' method (path ++ b' ' ∷ tail) r.method_no_space,
      parse_request_line,
      split_at-append b' ' path tail r.path_no_space,
      atol-decimal minor crlf (omega (arith, r.minor_small)) refl,
      to_int-nonneg minor r.minor_small,
    )

append_write_request_line :
    (method path : List ℕ) (minor : ℕ) (s t : List ℕ)
    → write_request_line method path minor s ++ t ≡ write_request_line method path minor (s ++ t)
append_write_request_line method path minor s t = simp append_assoc

http_prefix-IsClean : IsClean http_prefix
http_prefix-IsClean = record {
  non_nul = omega arith;
  no_newline = (refl, (refl, (refl, (refl, (refl, (refl, (refl, tt)))))));
}

read_request_line-as_read :
    (method path : List ℕ) (minor : ℕ) (rest : List ℕ)
    → IsRequestLine method path minor
    → read_request_line (write_request_line method path minor (b'\r' ∷ b'\n' ∷ rest))
      ≡ ok (line_as_read method path minor, rest)
unfolding read_request_line
read_request_line-as_read method path minor rest r =
    let line = write_request_line method path minor (b'\r' ∷ []) in
    let clean : IsClean line = IsClean-append r.method_clean (
      IsClean-cons b' ' (omega arith) refl (
        IsClean-append r.path_clean (
          IsClean-cons b' ' (omega arith) refl (
            IsClean-append http_prefix-IsClean (
              IsClean-append (decimal-IsClean minor)
                (record { non_nul = omega arith; no_newline = (refl, tt) })))))) in
    let split = λ (t : List ℕ). append_write_request_line method path minor (b'\r' ∷ []) t in
    let short : length line < line_buf_size - 1 = omega (
      arith,
      r.fits,
      length-append method (b' ' ∷ (path ++ b' ' ∷ (http_prefix ++ (decimal minor ++ b'\r' ∷ [])))),
      length-append path (b' ' ∷ (http_prefix ++ (decimal minor ++ b'\r' ∷ []))),
      length-append (decimal minor) (b'\r' ∷ []),
    ) in
    rw (sym (split (b'\n' ∷ rest))) (
      rw (
        fgets-line line rest clean short,
        read_request_line,
        split (b'\n' ∷ []),
        parse_request_line-as_read method path minor r,
      ))

abbrev pub write_request : List ℕ → List ℕ → ℕ → List HeaderField → List ℕ → List ℕ → List ℕ
write_request method path minor fields body rest =
    write_request_line method path minor
      (b'\r' ∷ b'\n' ∷ write_header (fields ++ length_field (length body) ∷ []) (body ++ rest))

linked-snoc :
    (hs : List HeaderField) (h : HeaderField) (header : List HeaderField)
    → linked (hs ++ h ∷ []) header ≡ as_read h ∷ linked hs header
linked-snoc [] h header = refl
linked-snoc (k ∷ hs) h header = linked-snoc hs h (as_read k ∷ header)

read_body-append :
    (body rest : List ℕ)
    → length body ≤ max_request_body_length
    → read_body (length body) (body ++ rest) ≡ ok (body, rest)
unfolding read_body
read_body-append [] rest small = refl
read_body-append (b ∷ body) rest small =
    let fits : ltb max_request_body_length (suc (length body)) ≡ false = ground arith in
    let there : ltb (length (b ∷ body ++ rest)) (suc (length body)) ≡ false =
      ge→ltb (length (b ∷ body ++ rest)) (suc (length body))
        (omega (arith, length-append body rest)) in
    let some_length : (suc (length body) == 0) ≡ false =
      ne→== (suc (length body)) 0 (omega arith) in
    rw (fits, there, some_length)
      (ap₂ {A = List ℕ} {B = List ℕ} (λ x y. ok (x, y)) (take-append (b ∷ body) rest)
        (drop-append (b ∷ body) rest))

-- A request that a client writes out, with its header fields, a `Content-Length` that states the length
-- of the body, an empty line and the body, is read as it was meant, and what follows the body is left
-- for the next read. This needs a request line and fields that have no NUL and no newline in them and
-- fit `buf`, no space in the method and the path, a minor version below 2^31, names of fields that are
-- not empty and have no colon, no blank in front of a field's value, and a body of 1 MiB at most. The
-- method is then in capitals, and each value ends with CR LF.
pub read_request-write_request :
    (method path : List ℕ) (minor : ℕ) (fields : List HeaderField) (body rest : List ℕ)
    → IsRequestLine method path minor
    → All IsField fields
    → length body ≤ max_request_body_length
    → read_request (write_request method path minor fields body rest)
      ≡ ok (
        request_of
            (line_as_read method path minor)
            (linked (fields ++ length_field (length body) ∷ []) [])
            (length body)
            body,
        rest,
      )
unfolding read_request
read_request-write_request method path minor fields body rest line each small =
    let n = length body in
    let all = fields ++ length_field n ∷ [] in
    let tail = write_header all (body ++ rest) in
    let header : read_header (suc (length tail)) [] tail ≡ ok (linked all [], body ++ rest) =
      read_header-linked all (suc (length tail)) [] (body ++ rest)
        (All-append IsField fields (length_field n ∷ []) each
          (length_field-IsField n (omega arith), tt))
        (omega (arith, length-write_header all (body ++ rest))) in
    let stated : content_length (linked all []) ≡ ok n =
      rw (linked-snoc fields (length_field n) [])
        (content_length-length_field n (linked fields []) (omega arith)) in
    rw
      (
        read_request_line-as_read method path minor tail line,
        header,
        stated,
        read_body-append body rest small,
      )
      refl
