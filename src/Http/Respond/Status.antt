-- ===== src/Http/Respond/Status.antt =====
-- Which status a response has, and that HEAD gets the front of what GET gets.
use network_program.Prelude.{
  ℕ, ◌≡◌, refl, sym, ap, ◌∙◌, inl, inr, Bool, true, false, not, Option, none, some, List, ◌∷◌, ◌++◌,
  append_assoc, if◌then◌else◌, Bool-cases, Option-cases,
}
use network_program.Http.{str, Request, Result, ok, ◌>>>◌, >>>-eq-ok, ok-injective, equal_text}
use network_program.Http.Respond.{
  Stat, System, common_header_fields, is_head, FileInfo, line, get_fileinfo,
  output_common_header_fields, not_found, method_not_allowed, not_implemented, send_file,
  file_header, do_file_response, respond_to,
}

-- The methods that the server tells apart.
pub data Method : Type 0 where
  get head post other_method : Method

unfoldable pub method_of : List ℕ → Method
method_of m =
    if equal_text m (str "GET")
    then get
    else if equal_text m (str "HEAD")
    then head
    else if equal_text m (str "POST")
    then post
    else other_method

file_status : Bool → List ℕ
file_status true = str "200 OK"
file_status false = str "404 Not Found"

-- The status that RFC 1945 has for a method, where `found` says whether there is a file to send.
unfoldable pub status_for : Method → Bool → List ℕ
unfolding file_status
status_for get found = file_status found
status_for head found = file_status found
status_for post found = str "405 Method Not Allowed"
status_for other_method found = str "501 Not Implemented"

abbrev pub is_regular_file : Option Stat → Bool
is_regular_file none = false
is_regular_file (some st) = st.is_regular

-- Whether there is a regular file at the path below the document root.
abbrev pub has_file : System → List ℕ → List ℕ → Bool
has_file sys docroot urlpath = is_regular_file (sys.lstat (docroot ++ b'/' ∷ urlpath))

pub get_fileinfo-has_file :
    (sys : System) (docroot urlpath : List ℕ)
    → (get_fileinfo sys docroot urlpath).is_ok ≡ has_file sys docroot urlpath
unfolding get_fileinfo
get_fileinfo-has_file sys docroot urlpath =
    elim (Option-cases (sys.lstat (docroot ++ b'/' ∷ urlpath))) [
      | inl away ↦ rw (away, get_fileinfo) refl
      | inr (st, there) ↦ elim (Bool-cases st.is_regular) [
        | inl regular ↦ rw (there, regular, get_fileinfo) refl
        | inr not_regular ↦ rw (there, not_regular, get_fileinfo) refl
      ]
    ]

-- A response that begins with a status line.
abbrev pub HasStatus : List ℕ → List ℕ → Type 0
HasStatus status out = (rest : List ℕ) × (out ≡ line (str "HTTP/1.0 " ++ status) ++ rest)

common-HasStatus :
    (date : Option (List ℕ)) (status common : List ℕ)
    → output_common_header_fields date status ≡ ok common
    → HasStatus status common
unfolding output_common_header_fields
common-HasStatus none status common e = cc
common-HasStatus (some date) status common e =
    (_, sym (ok-injective (common_header_fields status date) common e))

-- Whatever is written behind the common fields leaves the status.
front-HasStatus :
    (date : Option (List ℕ)) (status : List ℕ) (more : List ℕ → List ℕ) (out : List ℕ)
    → (output_common_header_fields date status >>> λ common. ok (common ++ more common)) ≡ ok out
    → HasStatus status out
front-HasStatus date status more out e =
    let (common, first, last) =
      >>>-eq-ok (output_common_header_fields date status) (λ common. ok (common ++ more common))
        e in
    let (rest, is) = common-HasStatus date status common first in
    (
      rest ++ more common,
      sym (ok-injective (common ++ more common) out last)
          ∙ ap (λ k. k ++ more common) is
          ∙ append_assoc (line (str "HTTP/1.0 " ++ status)) rest (more common),
    )

HasStatus-append :
    (status out more : List ℕ) → HasStatus status out → HasStatus status (out ++ more)
HasStatus-append status out more (rest, e) = (
  rest ++ more,
  ap (λ k. k ++ more) e ∙ append_assoc (line (str "HTTP/1.0 " ++ status)) rest more,
)

HasStatus-file_header :
    (info : FileInfo) (status common : List ℕ)
    → HasStatus status common
    → HasStatus status (file_header info common)
unfolding file_header
HasStatus-file_header info status common h = HasStatus-append status common _ h

-- What follows the common fields of a file's response.
unfoldable pub file_rest : System → FileInfo → Bool → List ℕ → Result (List ℕ)
file_rest sys info only_header common =
    if not only_header
    then (send_file sys info >>> λ body. ok (file_header info common ++ body))
    else ok (file_header info common)

file_rest-HasStatus :
    (sys : System) (info : FileInfo) (only_header : Bool) (status common out : List ℕ)
    → HasStatus status common
    → file_rest sys info only_header common ≡ ok out
    → HasStatus status out
unfolding file_rest
file_rest-HasStatus sys info true status common out h e =
    rw (← ok-injective (file_header info common) out e) (HasStatus-file_header info status common h)
file_rest-HasStatus sys info false status common out h e =
    let (body, sent, last) =
      >>>-eq-ok (send_file sys info) (λ body. ok (file_header info common ++ body)) e in
    rw (← ok-injective (file_header info common ++ body) out last) (
      HasStatus-append status (file_header info common) body
        (HasStatus-file_header info status common h))

found-HasStatus :
    (sys : System) (info : FileInfo) (only_header : Bool) (out : List ℕ)
    → (output_common_header_fields sys.date (str "200 OK") >>> file_rest sys info only_header)
      ≡ ok out
    → HasStatus (str "200 OK") out
found-HasStatus sys info only_header out e =
    let (common, first, last) =
      >>>-eq-ok (output_common_header_fields sys.date (str "200 OK"))
        (file_rest sys info only_header) e in
    file_rest-HasStatus sys info only_header (str "200 OK") common out
      (common-HasStatus sys.date (str "200 OK") common first) last

not_found-HasStatus :
    (sys : System) (req : Request) (out : List ℕ)
    → not_found sys req ≡ ok out
    → HasStatus (str "404 Not Found") out
unfolding not_found
not_found-HasStatus sys req out e = front-HasStatus sys.date (str "404 Not Found") _ out e

unfoldable pub choose : Bool → Result (List ℕ) → Result (List ℕ) → Result (List ℕ)
choose b x y = if not b then x else y

pub do_file_response-choose :
    (sys : System) (docroot : List ℕ) (req : Request)
    → do_file_response sys docroot req
      ≡ choose (get_fileinfo sys docroot req.path).is_ok (not_found sys req) (
          output_common_header_fields sys.date (str "200 OK")
          >>> file_rest sys (get_fileinfo sys docroot req.path) (is_head req))
unfolding do_file_response choose file_rest
do_file_response-choose sys docroot req = refl

choose-HasStatus :
    (b : Bool) (x y : Result (List ℕ)) (out : List ℕ)
    → choose b x y ≡ ok out
    → (x ≡ ok out → HasStatus (str "404 Not Found") out)
    → (y ≡ ok out → HasStatus (str "200 OK") out)
    → HasStatus (file_status b) out
unfolding choose file_status
choose-HasStatus true x y out e f g = g e
choose-HasStatus false x y out e f g = f e

file-HasStatus :
    (sys : System) (docroot : List ℕ) (req : Request) (out : List ℕ)
    → do_file_response sys docroot req ≡ ok out
    → HasStatus (file_status (get_fileinfo sys docroot req.path).is_ok) out
file-HasStatus sys docroot req out e =
    choose-HasStatus (get_fileinfo sys docroot req.path).is_ok _ _ out
      (sym (do_file_response-choose sys docroot req) ∙ e) (not_found-HasStatus sys req out)
      (found-HasStatus sys (get_fileinfo sys docroot req.path) (is_head req) out)

dispatch : Bool → Bool → Bool → (file refused unknown : Result (List ℕ)) → Result (List ℕ)
dispatch for_get for_head for_post file refused unknown =
    if for_get then file else if for_head then file else if for_post then refused else unknown

respond_to-dispatch :
    (sys : System) (docroot : List ℕ) (req : Request)
    → respond_to sys docroot req
      ≡ dispatch
          (equal_text req.method (str "GET"))
          (equal_text req.method (str "HEAD"))
          (equal_text req.method (str "POST"))
          (do_file_response sys docroot req)
          (method_not_allowed sys req)
          (not_implemented sys req)
unfolding respond_to dispatch
respond_to-dispatch sys docroot req = refl

-- The method by the three tests.
kind : Bool → Bool → Bool → Method
kind for_get for_head for_post =
    if for_get then get else if for_head then head else if for_post then post else other_method

dispatch-HasStatus :
    (for_get for_head for_post found : Bool) (file refused unknown : Result (List ℕ)) (out : List ℕ)
    → dispatch for_get for_head for_post file refused unknown ≡ ok out
    → (file ≡ ok out → HasStatus (file_status found) out)
    → (refused ≡ ok out → HasStatus (str "405 Method Not Allowed") out)
    → (unknown ≡ ok out → HasStatus (str "501 Not Implemented") out)
    → HasStatus (status_for (kind for_get for_head for_post) found) out
unfolding dispatch kind status_for
dispatch-HasStatus true b c found file refused unknown out e f g h = f e
dispatch-HasStatus false true c found file refused unknown out e f g h = f e
dispatch-HasStatus false false true found file refused unknown out e f g h = g e
dispatch-HasStatus false false false found file refused unknown out e f g h = h e

-- A response that the server sends begins with the status of its request: 200 or 404 for GET and HEAD, as
-- there is a regular file for the path or not, 405 for POST, and 501 for every other method.
pub respond_to-HasStatus :
    (sys : System) (docroot : List ℕ) (req : Request) (out : List ℕ)
    → respond_to sys docroot req ≡ ok out
    → HasStatus (status_for (method_of req.method) (has_file sys docroot req.path)) out
unfolding method_of kind method_not_allowed not_implemented
respond_to-HasStatus sys docroot req out e = rw (← get_fileinfo-has_file sys docroot req.path) (
    dispatch-HasStatus (equal_text req.method (str "GET")) (equal_text req.method (str "HEAD"))
      (equal_text req.method (str "POST")) (get_fileinfo sys docroot req.path).is_ok
      (do_file_response sys docroot req) (method_not_allowed sys req) (not_implemented sys req) out
      (sym (respond_to-dispatch sys docroot req) ∙ e) (file-HasStatus sys docroot req out)
      (front-HasStatus sys.date (str "405 Method Not Allowed") _ out)
      (front-HasStatus sys.date (str "501 Not Implemented") _ out))
