-- ===== src/Http/Respond.antt =====
-- The responses (httpd/httpd2.c, `respond_to` and what it calls). What is written to the connection is a
-- list of bytes. The clock and the file system are arguments; every write but that of a file's block
-- is taken to succeed, as its result is not looked at.
pub mod File
pub mod Status
pub mod Head
use network_program.Prelude.{
  ℕ, ◌+◌, ◌-◌, ◌/◌, ◌<◌, Bool, true, false, not, Option, none, some, List, [], ◌∷◌, ◌++◌,
  if◌then◌else◌,
}
use network_program.Http.{
  str, Request, Reason, no_time, cannot_open, cannot_read, cannot_write, Result, ok, exits, ◌>>>◌,
  equal_text,
}
use network_program.Http.Number.{decimal}

-- `lstat` of a path
pub record Stat : Type 0 where
  pub is_regular : Bool
  pub st_size : ℕ

-- One result of `read` on an open file; an empty block is its end.
pub data Block : Type 0 where
  block : List ℕ → Block
  read_failed : Block

-- The system as the child process sees it.
pub record System : Type 0 where
  -- `gmtime` and `strftime` of the current time
  pub date : Option (List ℕ)
  pub lstat : List ℕ → Option Stat
  -- `open`, and what `read` gives on the descriptor
  pub open_file : List ℕ → Option (List Block)
  -- whether `fwrite` takes a whole block
  pub fwrite_ok : Bool

-- `struct FileInfo`
pub record FileInfo : Type 0 where
  pub path : List ℕ
  pub size : ℕ
  pub is_ok : Bool

-- A line, and the end that every line of a response has.
abbrev pub line : List ℕ → List ℕ
line s = s ++ b'\r' ∷ b'\n' ∷ []

-- `sprintf(path, "%s/%s", docroot, urlpath)`
abbrev pub build_fspath : List ℕ → List ℕ → List ℕ
build_fspath docroot urlpath = docroot ++ b'/' ∷ urlpath

unfoldable pub get_fileinfo : System → List ℕ → List ℕ → FileInfo
get_fileinfo sys docroot urlpath =
    let path = build_fspath docroot urlpath in
    elim (sys.lstat path) [
      | none ↦ record { path = path; size = 0; is_ok = false }
      | some st ↦
          if not st.is_regular
          then record { path = path; size = 0; is_ok = false }
          else record { path = path; size = st.st_size; is_ok = true }
    ]

abbrev pub guess_content_type : FileInfo → List ℕ
guess_content_type info = str "text/plain"

abbrev pub common_header_fields : List ℕ → List ℕ → List ℕ
common_header_fields status date =
    line (str "HTTP/1.0 " ++ status)
    ++ (line (str "Date: " ++ date)
        ++ (line (str "Server: LittleHTTP/1.0") ++ line (str "Connection: close")))

-- `gmtime` gives no time for `none`.
unfoldable pub output_common_header_fields : Option (List ℕ) → List ℕ → Result (List ℕ)
output_common_header_fields none status = exits no_time
output_common_header_fields (some date) status = ok (common_header_fields status date)

abbrev pub is_head : Request → Bool
is_head req = equal_text req.method (str "HEAD")

abbrev pub not_found_page : List ℕ
not_found_page =
    line (str "<html>")
    ++ (line (str "<header><title>Not Found</title><header>")
        ++ (line (str "<body><p>File not found</p></body>") ++ line (str "</html>")))

unfoldable pub not_found : System → Request → Result (List ℕ)
unfolding output_common_header_fields
not_found sys req = output_common_header_fields sys.date (str "404 Not Found") >>> λ common. ok (
    common
    ++ (line (str "Content-Type: text/html")
        ++ (line [] ++ (if is_head req then [] else not_found_page))))

-- The page of a refused method: its title, and what it says of the method.
abbrev pub refusal : List ℕ → List ℕ → Request → List ℕ
refusal title what req =
    line (str "Content-Type: text/html")
    ++ (line []
        ++ (line (str "<html>")
            ++ (line (str "<header>")
                ++ (line (str "<title>" ++ (title ++ str "</title>"))
                    ++ (line (str "<header>")
                        ++ (line (str "<body>")
                            ++ (line (
                                  str "<p>The request method "
                                  ++ (req.method ++ (what ++ str "</p>")))
                                ++ (line (str "</body>") ++ line (str "</html>")))))))))

unfoldable pub method_not_allowed : System → Request → Result (List ℕ)
unfolding output_common_header_fields
method_not_allowed sys req =
    output_common_header_fields sys.date (str "405 Method Not Allowed") >>> λ common.
    ok (common ++ refusal (str "405 Method Not Allowed") (str " is not allowed") req)

unfoldable pub not_implemented : System → Request → Result (List ℕ)
unfolding output_common_header_fields
not_implemented sys req =
    output_common_header_fields sys.date (str "501 Not Implemented") >>> λ common.
    ok (common ++ refusal (str "501 Not Implemented") (str " is not implemented") req)

-- The loop of `read` and `fwrite`. A file whose blocks end without an empty one has ended.
unfoldable pub copy_blocks : Bool → List Block → Result (List ℕ)
copy_blocks fwrite_ok [] = ok []
copy_blocks fwrite_ok (read_failed ∷ blocks) = exits cannot_read
copy_blocks fwrite_ok (block [] ∷ blocks) = ok []
copy_blocks fwrite_ok (block (b ∷ bs) ∷ blocks) =
    let rest = copy_blocks fwrite_ok blocks in
    if fwrite_ok then (rest >>> λ out. ok (b ∷ bs ++ out)) else exits cannot_write

unfoldable pub send_file : System → FileInfo → Result (List ℕ)
unfolding copy_blocks
send_file sys info = elim (sys.open_file info.path) [
  | none ↦ exits cannot_open
  | some blocks ↦ copy_blocks sys.fwrite_ok blocks
]

unfoldable pub file_header : FileInfo → List ℕ → List ℕ
file_header info common =
    common
    ++ (line (str "Content-Length: " ++ decimal info.size)
        ++ (line (str "Content-Type: " ++ guess_content_type info) ++ line []))

unfoldable pub do_file_response : System → List ℕ → Request → Result (List ℕ)
unfolding get_fileinfo not_found output_common_header_fields file_header send_file
do_file_response sys docroot req =
    let info = get_fileinfo sys docroot req.path in
    if not info.is_ok
    then not_found sys req
    else output_common_header_fields sys.date (str "200 OK") >>> λ common.
        if not (is_head req)
        then (send_file sys info >>> λ body. ok (file_header info common ++ body))
        else ok (file_header info common)

unfoldable pub respond_to : System → List ℕ → Request → Result (List ℕ)
unfolding do_file_response method_not_allowed not_implemented
respond_to sys docroot req =
    if equal_text req.method (str "GET")
    then do_file_response sys docroot req
    else if equal_text req.method (str "HEAD")
    then do_file_response sys docroot req
    else if equal_text req.method (str "POST")
    then method_not_allowed sys req
    else not_implemented sys req
