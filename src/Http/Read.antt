-- ===== src/Http/Read.antt =====
-- Reading a request (httpd/httpd2.c, `read_request` and what it calls). The connection is the list of
-- the bytes that are still to come; its end is the end of file.
pub mod Total
pub mod Header
pub mod Bounds
pub mod Fields
pub mod LengthField
pub mod RoundTrip
use network_program.Prelude.{
  ℕ, zero, suc, ◌+◌, ◌-◌, ◌*◌, ◌/◌, ◌%◌, ◌^◌, ◌≤◌, ◌<◌, min, ◌≡◌, refl, sym, ap, ◌∙◌, ◌≢◌, ◌↔◌, ◌⊎◌,
  inl, inr, Bool, true, false, not, ◌&&◌, ◌||◌, Option, none, some, List, [], ◌∷◌, ◌++◌, map,
  append_assoc, append-nil, arith, ltb, leb, ◌==◌, if◌then◌else◌, ltb→lt, lt→ltb, ltb→ge, ge→ltb,
  ==→eq, eq→==, ==→ne, ne→==, tests, Bool-cases, Option-cases, length, get_elem?, set, take, drop,
  replicate, All, length-append, length-snoc, length-set, length-take, length-drop,
  length-replicate, take-append-drop, take-append, drop-append, take-append_ge, drop-append_ge,
  take-append_le, drop-append_le, take-take, set-append, All-snoc, All-append, map-snoc,
  get_elem?-append, get_elem?-take, take-store, take-set, take-set_ge, take-nil, drop-nil,
  get_elem?-set_self, get_elem?-set_ne, get_elem?-lt, Run, done, blocked, fault, ◌>>=◌, write,
  write-lt, write-ge, Ret, minus_one, count, Errno, eintr, eagain, other,
}
use network_program.CString.{text}
use network_program.OneLine.Chunk.{chunk}
use network_program.Http.{
  str, HeaderField, Request, Reason, no_request_line, no_first_space, no_second_space, no_protocol,
  no_header_field, no_colon, negative_length, body_too_long, short_body, no_fuel, Result, ok, exits,
  ◌>>>◌, line_buf_size, max_request_body_length, split_at, upcase, equal_text, equal_ignoring_case,
  skip_blanks,
}
use network_program.Integer.{ℤ}
use network_program.Http.Number.{nonneg, negative, to_int, atol}

-- `fgets(buf, LINE_BUF_SIZE, in)`: the text that then stands in `buf`, and the rest of the input.
abbrev pub fgets : List ℕ → Option (List ℕ × List ℕ)
fgets [] = none
fgets (b ∷ bs) =
    let line = chunk (line_buf_size - 1) (b ∷ bs) in some (text line, drop (length line) (b ∷ bs))

abbrev pub http_prefix : List ℕ
http_prefix = str "HTTP/1."

-- `strncasecmp(p, "HTTP/1.", strlen("HTTP/1.")) == 0`
unfoldable pub has_prefix : List ℕ → List ℕ → Bool
unfolding equal_ignoring_case
has_prefix prefix p = equal_ignoring_case (take (length prefix) p) prefix

-- `struct HTTPRequest` after `read_request_line`.
pub record RequestLine : Type 0 where
  pub method : List ℕ
  pub path : List ℕ
  pub protocol_minor_version : ℤ

unfoldable pub parse_request_line : List ℕ → Result RequestLine
unfolding upcase has_prefix atol
parse_request_line buf = elim (split_at b' ' buf) [
  | none ↦ exits no_first_space
  | some (method, p) ↦ elim (split_at b' ' p) [
    | none ↦ exits no_second_space
    | some (path, q) ↦
        if has_prefix http_prefix q
        then ok (record {
          method = upcase method;
          path = path;
          protocol_minor_version = to_int (atol (drop (length http_prefix) q));
        })
        else exits no_protocol
  ]
]

unfoldable pub read_request_line : List ℕ → Result (RequestLine × List ℕ)
unfolding parse_request_line
read_request_line input = elim (fgets input) [
  | none ↦ exits no_request_line
  | some (buf, rest) ↦ parse_request_line buf >>> λ l. ok (l, rest)
]

unfoldable pub starts_newline : List ℕ → Bool
starts_newline [] = false
starts_newline (c ∷ cs) = c == b'\n'

-- `(buf[0] == '\n') || (strcmp(buf, "\r\n") == 0)`
unfoldable pub ends_header : List ℕ → Bool
unfolding equal_text starts_newline
ends_header buf = starts_newline buf || equal_text buf (b'\r' ∷ b'\n' ∷ [])

-- The field of a line, or none for the empty line behind the header.
unfoldable pub parse_header_field : List ℕ → Result (Option HeaderField)
unfolding ends_header
parse_header_field buf = if ends_header buf then ok none else elim (split_at b':' buf) [
  | none ↦ exits no_colon
  | some (name, p) ↦ ok (some (record { name = name; value = skip_blanks p }))
]

unfoldable pub read_header_field : List ℕ → Result (Option HeaderField × List ℕ)
unfolding parse_header_field
read_header_field input = elim (fgets input) [
  | none ↦ exits no_header_field
  | some (buf, rest) ↦ parse_header_field buf >>> λ h. ok (h, rest)
]

-- The end of the header, or a field that is linked before the others.
abbrev pub after_field :
    List HeaderField
    → (List HeaderField → List ℕ → Result (List HeaderField × List ℕ))
    → Option HeaderField × List ℕ
    → Result (List HeaderField × List ℕ)
after_field header go (none, rest) = ok (header, rest)
after_field header go (some h, rest) = go (h ∷ header) rest

-- `while (h = read_header_field(in)) { h->next = req->header; req->header = h; }` on fuel.
unfoldable pub read_header : ℕ → List HeaderField → List ℕ → Result (List HeaderField × List ℕ)
unfolding read_header_field
read_header zero header input = exits no_fuel
read_header (suc fuel) header input =
    read_header_field input >>> after_field header (read_header fuel)

unfoldable pub lookup_header_field_value : List HeaderField → List ℕ → Option (List ℕ)
lookup_header_field_value [] name = none
lookup_header_field_value (h ∷ hs) name =
    if equal_ignoring_case h.name name then some h.value else lookup_header_field_value hs name

-- The length that a value states; `atol` gives 0 where no number stands.
unfoldable pub length_of_value : List ℕ → Result ℕ
unfolding atol
length_of_value val = elim (atol val) [ nonneg n ↦ ok n | negative n ↦ exits negative_length ]

unfoldable pub content_length : List HeaderField → Result ℕ
unfolding lookup_header_field_value length_of_value
content_length header = elim (lookup_header_field_value header (str "Content-Length")) [
  | none ↦ ok 0
  | some val ↦ length_of_value val
]

-- `fread(req->body, req->length, 1, in)`, and `req->body = NULL` for a length of 0.
unfoldable pub read_body : ℕ → List ℕ → Result (List ℕ × List ℕ)
read_body n input =
    if n == 0
    then ok ([], input)
    else if ltb max_request_body_length n
    then exits body_too_long
    else if ltb (length input) n
    then exits short_body
    else ok (take n input, drop n input)

abbrev pub request_of : RequestLine → List HeaderField → ℕ → List ℕ → Request
request_of l header n body = record {
  protocol_minor_version = l.protocol_minor_version;
  method = l.method;
  path = l.path;
  header = header;
  body = body;
  length_of_body = n;
}

-- The request, and the input behind it.
unfoldable pub read_request : List ℕ → Result (Request × List ℕ)
unfolding read_request_line read_header content_length read_body
read_request input = read_request_line input >>> λ (l, rest).
    read_header (suc (length rest)) [] rest >>> λ (header, rest'). content_length header >>> λ n.
    read_body n rest' >>> λ (body, rest''). ok (request_of l header n body, rest'')
