-- ===== src/Certificate.antt =====
-- Checking the peer's certificate: `like_check_ignorecase` and `post_connection_check` of
-- chapter11/ssl-server.c (chapter11/ssl-client.c has the same text). What OpenSSL finds in the
-- certificate is a record. A string is the list of its bytes before the NUL; a read behind the NUL is a
-- fault.
pub mod Matching
pub mod StarLoop
pub mod Like
pub mod Accepts
use network_program.Prelude.{
  ℕ, zero, suc, ◌+◌, ◌-◌, ◌*◌, ◌/◌, ◌%◌, ◌^◌, ◌≤◌, ◌<◌, min, ◌≡◌, refl, sym, ap, ◌∙◌, ◌≢◌, ◌↔◌, ◌⊎◌,
  inl, inr, Bool, true, false, not, ◌&&◌, ◌||◌, Option, none, some, List, [], ◌∷◌, ◌++◌, map,
  append_assoc, append-nil, arith, ltb, leb, ◌==◌, if◌then◌else◌, ltb→lt, lt→ltb, ltb→ge, ge→ltb,
  ==→eq, eq→==, ==→ne, ne→==, tests, Bool-cases, Option-cases, length, get_elem?, set, take, drop,
  replicate, All, length-append, length-snoc, length-set, length-take, length-drop,
  length-replicate, take-append-drop, take-append, drop-append, take-append_ge, drop-append_ge,
  take-append_le, drop-append_le, take-take, set-append, All-snoc, All-append, map-snoc,
  get_elem?-append, get_elem?-take, take-store, take-set, take-set_ge, take-nil, drop-nil,
  get_elem?-set_self, get_elem?-set_ne, get_elem?-lt, Run, done, blocked, fault, ◌>>=◌, write,
  write-lt, write-ge, Ret, minus_one, count, Errno, eintr, eagain, other,
}
use network_program.CString.{text}
use network_program.Http.{to_upper, str}

abbrev pub star : ℕ
star = b'*'

abbrev pub question : ℕ
question = b'?'

abbrev pub is_empty : List ℕ → Bool
is_empty [] = true
is_empty (x ∷ xs) = false

-- The loop behind a `*`, where `like` is the check with the rest of the pattern. It goes on with
-- `str_in++` before it looks for the NUL, and so past it where the string is already at its end.
unfoldable pub star_loop : (List ℕ → Run Bool) → List ℕ → Run Bool
star_loop like [] = like [] >>= λ found. (if found then done true else fault)
star_loop like (x ∷ xs) =
    let rest = star_loop like xs in
    like (x ∷ xs) >>= λ found.
    (if found then done true else if is_empty xs then done false else rest)

-- Whether the string is like the pattern. A byte of the pattern is not NUL, so it is never equal to the
-- end of the string.
unfoldable pub like_check_ignorecase : List ℕ → List ℕ → Run Bool
unfolding star_loop
like_check_ignorecase str_in [] = done (is_empty str_in)
like_check_ignorecase str_in (c ∷ check_in) =
    let like = λ (s : List ℕ). like_check_ignorecase s check_in in
    if c == star
    then if is_empty check_in then done true else star_loop like str_in
    else elim str_in [
      | [] ↦ done false
      | x ∷ xs ↦
          if c == question
          then like xs
          else if to_upper x == to_upper c
          then like xs
          else done false
    ]

-- An extension: whether it is the subjectAltName, whether OpenSSL has a method for it, and its names and
-- values.
pub record Extension : Type 0 where
  pub is_alt_name : Bool
  pub method_ok : Bool
  pub values : List (List ℕ × List ℕ)

-- `common_name` is none where the certificate has no subject, or the subject no commonName.
pub record Cert : Type 0 where
  pub extensions : List Extension
  pub common_name : Option (List ℕ)

-- `strncmp(cval->name, "DNS", 3) == 0`
abbrev pub is_dns : List ℕ → Bool
is_dns (a ∷ b ∷ c ∷ rest) = (a == b'D') && ((b == b'N') && (c == b'S'))
is_dns _ = false

unfoldable pub check_values : List ℕ → List (List ℕ × List ℕ) → Run Bool
unfolding like_check_ignorecase
check_values host [] = done false
check_values host ((name, value) ∷ values) =
    let rest = check_values host values in
    if is_dns name
    then (like_check_ignorecase value host >>= λ ok. (if ok then done true else rest))
    else rest

-- The loop over the extensions: `ok` afterwards.
unfoldable pub check_extensions : List ℕ → List Extension → Run Bool
unfolding check_values
check_extensions host [] = done false
check_extensions host (e ∷ es) =
    let rest = check_extensions host es in
    if e.is_alt_name
    then if e.method_ok
      then (check_values host e.values >>= λ ok. (if ok then done true else rest))
      else done false
    else rest

-- X509_V_ERR_APPLICATION_VERIFICATION, or what `SSL_get_verify_result` gives.
pub data Verdict : Type 0 where
  application_error verify_result : Verdict

-- `data` behind `X509_NAME_get_text_by_NID`: at most 255 bytes of the name, read up to the first NUL.
abbrev pub name_data : List ℕ → List ℕ
name_data name = text (take 255 name)

-- `X509_NAME_get_text_by_NID` gives a number below 0 where there is no name, and 0 for an empty one.
unfoldable pub check_common_name : List ℕ → Option (List ℕ) → Run Verdict
unfolding like_check_ignorecase
check_common_name host none = done verify_result
check_common_name host (some []) = done verify_result
check_common_name host (some (b ∷ bs)) = like_check_ignorecase host (name_data (b ∷ bs)) >>= λ ok.
    done (if ok then verify_result else application_error)

-- `host` and the certificate are none for NULL.
unfoldable pub post_connection_check : Option (List ℕ) → Option Cert → Run Verdict
unfolding check_extensions check_common_name
post_connection_check none cert = done application_error
post_connection_check (some host) none = done application_error
post_connection_check (some host) (some cert) = check_extensions host cert.extensions >>= λ ok.
    (if ok then done verify_result else check_common_name host cert.common_name)
