-- ===== src/Http/Respond/File.antt =====
-- The response to GET with a file, as a client reads it.
use network_program.Prelude.{
  ℕ, suc, ◌+◌, ◌≤◌, ◌<◌, ◌≡◌, refl, ◌∙◌, Bool, true, false, not, ◌&&◌, Option, some, List, [], ◌∷◌,
  ◌++◌, append_assoc, arith, ◌==◌, length, All,
}
use network_program.Http.{
  equal_ignoring_case, str, HeaderField, Request, ok, line_buf_size, equal_text,
}
use network_program.Http.Number.{long_max, decimal}
use network_program.Http.Read.{read_header, content_length}
use network_program.Http.Read.Fields.{
  IsClean, Lacks, IsField, NoBlankFirst, linked, write_header, read_header-linked,
  length-write_header,
}
use network_program.Http.Read.LengthField.{
  length_field-IsField, content_length-passes, content_length-length_field,
}
use network_program.Http.Respond.{
  System, Block, block, FileInfo, line, build_fspath, get_fileinfo, common_header_fields,
  output_common_header_fields, copy_blocks, send_file, file_header, do_file_response, respond_to,
}

-- The header of a file's response.
abbrev pub file_fields : List ℕ → ℕ → List HeaderField
file_fields date n =
    record { name = str "Date"; value = date }
    ∷ record { name = str "Server"; value = str "LittleHTTP/1.0" }
    ∷ record { name = str "Connection"; value = str "close" }
    ∷ record { name = str "Content-Length"; value = decimal n }
    ∷ record { name = str "Content-Type"; value = str "text/plain" }
    ∷ []

-- Blocks of at least one byte, and the empty one that is the end of the file.
abbrev pub blocks_of : List (ℕ × List ℕ) → List Block
blocks_of [] = block [] ∷ []
blocks_of ((b, bs) ∷ more) = block (b ∷ bs) ∷ blocks_of more

abbrev pub contents : List (ℕ × List ℕ) → List ℕ
contents [] = []
contents ((b, bs) ∷ more) = b ∷ bs ++ contents more

copy_blocks-contents :
    (more : List (ℕ × List ℕ)) → copy_blocks true (blocks_of more) ≡ ok (contents more)
unfolding copy_blocks
copy_blocks-contents [] = refl
copy_blocks-contents ((b, bs) ∷ more) = rw (copy_blocks-contents more) refl

file_header-write_header :
    (info : FileInfo) (date body : List ℕ)
    → file_header info (common_header_fields (str "200 OK") date) ++ body
      ≡ line (str "HTTP/1.0 200 OK") ++ write_header (file_fields date info.size) body
unfolding file_header
file_header-write_header info date body = simp append_assoc

-- The date as `strftime` gives it.
pub record IsDate (date : List ℕ) : Type 0 where
  pub clean : IsClean date
  pub no_blank : NoBlankFirst date
  pub short : length date < 64

-- A text with no NUL, no newline and no colon.
is_token : List ℕ → Bool
is_token [] = true
is_token (c ∷ cs) = (not (c == 0) && (not (c == b'\n') && not (c == b':'))) && is_token cs

token-IsClean : (s : List ℕ) → is_token s ≡ true → IsClean s × Lacks b':' s
unfolding is_token
token-IsClean [] h = (record { non_nul = tt; no_newline = tt }, tt)
token-IsClean (c ∷ s) h =
    let (clean, lacks) = token-IsClean s (ground arith) in
    (
      record {
        non_nul = (ground arith, clean.non_nul);
        no_newline = (ground arith, clean.no_newline);
      },
      (ground arith, lacks),
    )

IsField-token :
    (c : ℕ) (cs value : List ℕ)
    → is_token (c ∷ cs) ≡ true
    → IsClean value
    → NoBlankFirst value
    → length (c ∷ cs) + length value + 4 < line_buf_size
    → IsField (record { name = c ∷ cs; value = value })
IsField-token c cs value h clean no_blank fits = record {
  name_clean = (token-IsClean (c ∷ cs) h).0;
  value_clean = clean;
  no_colon = (token-IsClean (c ∷ cs) h).1;
  name_ne_nil = λ p. cc;
  no_blank = no_blank;
  fits = fits;
}

file_fields-IsField :
    (date : List ℕ) (n : ℕ) → IsDate date → n ≤ long_max → All IsField (file_fields date n)
unfolding is_token
file_fields-IsField date n d small = (
  IsField-token _ _ date refl d.clean d.no_blank (omega (arith, d.short)),
  (
    IsField-token _ _ _ refl (token-IsClean (str "LittleHTTP/1.0") refl).0 refl (omega arith),
    (
      IsField-token _ _ _ refl (token-IsClean (str "close") refl).0 refl (omega arith),
      (
        length_field-IsField n small,
        (IsField-token _ _ _ refl (token-IsClean (str "text/plain") refl).0 refl (omega arith), tt),
      ),
    ),
  ),
)

names_differ : equal_ignoring_case (str "Content-Type") (str "Content-Length") ≡ false
unfolding equal_ignoring_case
names_differ = refl

content_length-file_fields :
    (date : List ℕ) (n : ℕ) → n ≤ long_max → content_length (linked (file_fields date n) []) ≡ ok n
content_length-file_fields date n small =
    content_length-passes _ _ names_differ ∙ content_length-length_field n _ small

-- A regular file at the path of a GET request, which `lstat` gives as long as the blocks that are read.
pub record IsServed (sys : System) (docroot : List ℕ) (req : Request) (date : List ℕ)
    (more : List (ℕ × List ℕ)) : Type 0 where
  pub method_get : equal_text req.method (str "GET") ≡ true
  pub not_head : equal_text req.method (str "HEAD") ≡ false
  pub date_is : sys.date ≡ some date
  pub is_date : IsDate date
  pub regular :
      sys.lstat (build_fspath docroot req.path)
      ≡ some (record { is_regular = true; st_size = length (contents more) })
  pub opens : sys.open_file (build_fspath docroot req.path) ≡ some (blocks_of more)
  pub writes : sys.fwrite_ok ≡ true
  pub size : length (contents more) ≤ long_max

-- What a client finds in a response: the status line, a header, the body, and the length of the body as
-- the header states it.
pub record Response (out : List ℕ) (body : List ℕ) : Type 0 where
  pub after_status : List ℕ
  pub status_line : out ≡ line (str "HTTP/1.0 200 OK") ++ after_status
  pub header : List HeaderField
  pub header_read : read_header (suc (length after_status)) [] after_status ≡ ok (header, body)
  pub stated : content_length header ≡ ok (length body)

abbrev info_of : List ℕ → ℕ → FileInfo
info_of path n = record { path = path; size = n; is_ok = true }

get_fileinfo-regular :
    (sys : System) (docroot path : List ℕ) (n : ℕ)
    → sys.lstat (build_fspath docroot path) ≡ some (record { is_regular = true; st_size = n })
    → get_fileinfo sys docroot path ≡ info_of (build_fspath docroot path) n
unfolding get_fileinfo
get_fileinfo-regular sys docroot path n e = rw (e, get_fileinfo) refl

send_file-contents :
    (sys : System) (path : List ℕ) (n : ℕ) (more : List (ℕ × List ℕ))
    → sys.open_file path ≡ some (blocks_of more)
    → sys.fwrite_ok ≡ true
    → send_file sys (info_of path n) ≡ ok (contents more)
unfolding send_file
send_file-contents sys path n more e w = rw (e, w, send_file) (copy_blocks-contents more)

common-date :
    (o : Option (List ℕ)) (status date : List ℕ)
    → o ≡ some date
    → output_common_header_fields o status ≡ ok (common_header_fields status date)
unfolding output_common_header_fields
common-date o status date e = rw e refl

file_response-whole :
    (sys : System) (docroot : List ℕ) (req : Request) (date : List ℕ) (more : List (ℕ × List ℕ))
    → IsServed sys docroot req date more
    → do_file_response sys docroot req
      ≡ ok (
          file_header
            (info_of (build_fspath docroot req.path) (length (contents more)))
            (common_header_fields (str "200 OK") date)
          ++ contents more)
unfolding do_file_response
file_response-whole sys docroot req date more s =
    let n = length (contents more) in
    rw (
      get_fileinfo-regular sys docroot req.path n s.regular,
      common-date sys.date (str "200 OK") date s.date_is,
      s.not_head,
      send_file-contents sys (build_fspath docroot req.path) n more s.opens s.writes,
    )

-- GET of a regular file that can be read and sent is answered with 200, a header that can be read back
-- and states the length of the file, and the whole file.
pub respond_to-Response :
    (sys : System) (docroot : List ℕ) (req : Request) (date : List ℕ) (more : List (ℕ × List ℕ))
    → IsServed sys docroot req date more
    → (out : List ℕ) × (respond_to sys docroot req ≡ ok out) × Response out (contents more)
unfolding respond_to
respond_to-Response sys docroot req date more s =
    let n = length (contents more) in
    let info = info_of (build_fspath docroot req.path) n in
    let front = file_header info (common_header_fields (str "200 OK") date) in
    let after = write_header (file_fields date n) (contents more) in
    (
      front ++ contents more,
      rw s.method_get (file_response-whole sys docroot req date more s),
      record {
        after_status = after;
        status_line = file_header-write_header info date (contents more);
        header = linked (file_fields date n) [];
        header_read =
            read_header-linked (file_fields date n) (suc (length after)) [] (contents more)
              (file_fields-IsField date n s.is_date s.size)
              (omega (arith, length-write_header (file_fields date n) (contents more)));
        stated = content_length-file_fields date n s.size;
      },
    )
