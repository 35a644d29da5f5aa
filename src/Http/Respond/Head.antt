-- ===== src/Http/Respond/Head.antt =====
-- HEAD is answered with the front of what GET is answered with.
use network_program.Prelude.{
  ℕ, ◌≡◌, refl, sym, ap, ◌∙◌, ◌⊎◌, inl, inr, Bool, true, false, some, List, [], ◌∷◌, ◌++◌,
  append_assoc, Bool-cases, Option-cases,
}
use network_program.Http.{
  str, Request, Result, ok, exits, ◌>>>◌, >>>-eq-ok, ok-injective, equal_text,
}
use network_program.Http.Respond.{
  System, Block, block, read_failed, copy_blocks, guess_content_type, FileInfo, line, get_fileinfo,
  output_common_header_fields, not_found, send_file, file_header, do_file_response, respond_to,
  is_head, not_found_page,
}
use network_program.Http.Respond.Status.{
  has_file, get_fileinfo-has_file, file_rest, choose, do_file_response-choose,
}
use network_program.Http.Number.{decimal}

abbrev pub with_method : List ℕ → Request → Request
with_method m req = record req { method = m }

-- What the blocks of a file hold, as far as the empty one behind its last byte.
abbrev pub bytes_of : List Block → List ℕ
bytes_of [] = []
bytes_of (read_failed ∷ blocks) = []
bytes_of (block [] ∷ blocks) = []
bytes_of (block (b ∷ bs) ∷ blocks) = b ∷ bs ++ bytes_of blocks

-- The end of a header: the end of its last line, and an empty line.
abbrev pub EndsHeader : List ℕ → Type 0
EndsHeader front = (fields : List ℕ) × (front ≡ fields ++ b'\r' ∷ b'\n' ∷ b'\r' ∷ b'\n' ∷ [])

-- The body for a path: the bytes of the regular file that is there, or the page for none.
abbrev pub IsBody : System → List ℕ → List ℕ → List ℕ → Type 0
IsBody sys docroot urlpath body =
    ((has_file sys docroot urlpath ≡ true)
      × (blocks : List Block) × (sys.open_file (docroot ++ b'/' ∷ urlpath) ≡ some blocks)
      × (body ≡ bytes_of blocks))
    ⊎ ((has_file sys docroot urlpath ≡ false) × (body ≡ not_found_page))

-- Where `g` gives a response, `h` gives its header, and the rest of it is such a body.
abbrev IsHeaderOf : (List ℕ → Type 0) → Result (List ℕ) → Result (List ℕ) → Type 0
IsHeaderOf B h g =
    (out : List ℕ)
    → g ≡ ok out
    → (front : List ℕ) × (body : List ℕ) × (h ≡ ok front)
      × (out ≡ front ++ body)
      × EndsHeader front
      × B body

>>>-IsHeaderOf :
    (B : List ℕ → Type 0) (m : Result (List ℕ)) (h g : List ℕ → Result (List ℕ))
    → ((common : List ℕ) → IsHeaderOf B (h common) (g common))
    → IsHeaderOf B (m >>> h) (m >>> g)
>>>-IsHeaderOf B (ok common) h g f = f common
>>>-IsHeaderOf B (exits e) h g f = λ out p. absurd (cc p)

file_header-EndsHeader : (info : FileInfo) (common : List ℕ) → EndsHeader (file_header info common)
unfolding file_header
file_header-EndsHeader info common = (
  common
      ++ (line (str "Content-Length: " ++ decimal info.size)
          ++ (str "Content-Type: " ++ guess_content_type info)),
  simp append_assoc,
)

copy_blocks-bytes_of :
    (fwrite_ok : Bool) (blocks : List Block) (out : List ℕ)
    → copy_blocks fwrite_ok blocks ≡ ok out
    → out ≡ bytes_of blocks
unfolding copy_blocks
copy_blocks-bytes_of w [] out e = sym (ok-injective [] out e)
copy_blocks-bytes_of w (read_failed ∷ blocks) out e = absurd (cc)
copy_blocks-bytes_of w (block [] ∷ blocks) out e = sym (ok-injective [] out e)
copy_blocks-bytes_of false (block (b ∷ bs) ∷ blocks) out e = absurd (cc)
copy_blocks-bytes_of true (block (b ∷ bs) ∷ blocks) out e =
    let (rest, copied, last) = >>>-eq-ok (copy_blocks true blocks) (λ r. ok (b ∷ bs ++ r)) e in
    sym (ok-injective (b ∷ bs ++ rest) out last)
    ∙ ap (λ r. b ∷ bs ++ r) (copy_blocks-bytes_of true blocks rest copied)

send_file-bytes_of :
    (sys : System) (info : FileInfo) (body : List ℕ)
    → send_file sys info ≡ ok body
    → (blocks : List Block) × (sys.open_file info.path ≡ some blocks) × (body ≡ bytes_of blocks)
unfolding send_file
send_file-bytes_of sys info body e = elim (Option-cases (sys.open_file info.path)) [
  | inl away ↦ absurd (cc (rw (away, send_file) at e))
  | inr (blocks, there) ↦
      (blocks, there, copy_blocks-bytes_of sys.fwrite_ok blocks body (rw (there, send_file) at e))
]

file_rest-IsHeaderOf :
    (sys : System) (info : FileInfo) (common : List ℕ)
    → IsHeaderOf
        (λ body.
          (blocks : List Block) × (sys.open_file info.path ≡ some blocks)
          × (body ≡ bytes_of blocks))
        (file_rest sys info true common)
        (file_rest sys info false common)
unfolding file_rest
file_rest-IsHeaderOf sys info common out e =
    let (body, sent, last) =
      >>>-eq-ok (send_file sys info) (λ body. ok (file_header info common ++ body)) e in
    (
      file_header info common,
      body,
      refl,
      sym (ok-injective (file_header info common ++ body) out last),
      file_header-EndsHeader info common,
      send_file-bytes_of sys info body sent,
    )

not_found-IsHeaderOf :
    (sys : System) (req : Request)
    → IsHeaderOf
        (λ body. body ≡ not_found_page)
        (not_found sys (with_method (str "HEAD") req))
        (not_found sys (with_method (str "GET") req))
unfolding not_found equal_text
not_found-IsHeaderOf sys req =
    >>>-IsHeaderOf (λ body. body ≡ not_found_page)
      (output_common_header_fields sys.date (str "404 Not Found")) _ _
      λ common out e.
        let front = line (str "Content-Type: text/html") ++ line [] in
        (
          common ++ front,
          not_found_page,
          refl,
          sym (ok-injective (common ++ (front ++ not_found_page)) out e)
              ∙ sym (append_assoc common front not_found_page),
          (common ++ str "Content-Type: text/html", simp append_assoc),
          refl,
        )

head_is_head : (req : Request) → is_head (with_method (str "HEAD") req) ≡ true
unfolding equal_text
head_is_head req = refl

get_is_not_head : (req : Request) → is_head (with_method (str "GET") req) ≡ false
unfolding equal_text
get_is_not_head req = refl

get_fileinfo-path :
    (sys : System) (docroot urlpath : List ℕ)
    → (get_fileinfo sys docroot urlpath).path ≡ docroot ++ b'/' ∷ urlpath
unfolding get_fileinfo
get_fileinfo-path sys docroot urlpath =
    elim (Option-cases (sys.lstat (docroot ++ b'/' ∷ urlpath))) [
      | inl away ↦ rw (away, get_fileinfo) refl
      | inr (st, there) ↦ elim (Bool-cases st.is_regular) [
        | inl regular ↦ rw (there, regular, get_fileinfo) refl
        | inr not_regular ↦ rw (there, not_regular, get_fileinfo) refl
      ]
    ]

IsHeaderOf-weaken :
    (B B' : List ℕ → Type 0) (h g : Result (List ℕ))
    → ((body : List ℕ) → B body → B' body)
    → IsHeaderOf B h g
    → IsHeaderOf B' h g
IsHeaderOf-weaken B B' h g w is out e =
    let (front, body, gives, split, ends, b) = is out e in
    (front, body, gives, split, ends, w body b)

choose-IsHeaderOf :
    (B : List ℕ → Type 0) (b : Bool) (x y x' y' : Result (List ℕ))
    → (b ≡ false → IsHeaderOf B x x')
    → (b ≡ true → IsHeaderOf B y y')
    → IsHeaderOf B (choose b x y) (choose b x' y')
unfolding choose
choose-IsHeaderOf B true x y x' y' f g = g refl
choose-IsHeaderOf B false x y x' y' f g = f refl

found-IsHeaderOf :
    (sys : System) (docroot urlpath : List ℕ)
    → has_file sys docroot urlpath ≡ true
    → let info = get_fileinfo sys docroot urlpath in
      IsHeaderOf
        (IsBody sys docroot urlpath)
        (output_common_header_fields sys.date (str "200 OK") >>> file_rest sys info true)
        (output_common_header_fields sys.date (str "200 OK") >>> file_rest sys info false)
found-IsHeaderOf sys docroot urlpath there =
    let info = get_fileinfo sys docroot urlpath in
    >>>-IsHeaderOf (IsBody sys docroot urlpath)
      (output_common_header_fields sys.date (str "200 OK")) (file_rest sys info true)
      (file_rest sys info false)
      λ common.
        IsHeaderOf-weaken _ (IsBody sys docroot urlpath) (file_rest sys info true common)
          (file_rest sys info false common)
          (λ body (blocks, opens, is). inl (
            there,
            blocks,
            ap sys.open_file (sym (get_fileinfo-path sys docroot urlpath)) ∙ opens,
            is,
          ))
          (file_rest-IsHeaderOf sys info common)

file-IsHeaderOf :
    (sys : System) (docroot : List ℕ) (req : Request)
    → IsHeaderOf
        (IsBody sys docroot req.path)
        (do_file_response sys docroot (with_method (str "HEAD") req))
        (do_file_response sys docroot (with_method (str "GET") req))
unfolding equal_text
file-IsHeaderOf sys docroot req =
    let same = get_fileinfo-has_file sys docroot req.path in
    let info = get_fileinfo sys docroot req.path in
    rw
      (
        do_file_response-choose sys docroot (with_method (str "HEAD") req),
        do_file_response-choose sys docroot (with_method (str "GET") req),
      )
      (choose-IsHeaderOf (IsBody sys docroot req.path) info.is_ok _ _ _ _
        (λ away.
          IsHeaderOf-weaken _ (IsBody sys docroot req.path) _ _
            (λ body page. inr (sym same ∙ away, page)) (not_found-IsHeaderOf sys req))
        (λ there. found-IsHeaderOf sys docroot req.path (sym same ∙ there)))

-- Where a request with GET is answered, the same request with HEAD is answered too, and gets the header of
-- that answer, which ends with an empty line. What GET gets behind it is the content of the file if there
-- is a regular file for the path, and else the page that says that there is none.
pub respond_to-with_method :
    (sys : System) (docroot : List ℕ) (req : Request) (out : List ℕ)
    → respond_to sys docroot (with_method (str "GET") req) ≡ ok out
    → (front : List ℕ) × (body : List ℕ) × (respond_to sys docroot (with_method (str "HEAD") req)
        ≡ ok front)
      × (out ≡ front ++ body)
      × EndsHeader front
      × IsBody sys docroot req.path body
unfolding respond_to equal_text
respond_to-with_method sys docroot req = file-IsHeaderOf sys docroot req
