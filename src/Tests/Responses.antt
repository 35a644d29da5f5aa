-- ===== src/Tests/Responses.antt =====
-- The responses and the start of the HTTP server at small inputs.
use network_program.Prelude.{ℕ, ◌≡◌, refl, ◌↔◌, true, false, none, some, List, [], ◌∷◌, ◌++◌, arith}
use network_program.Integer.{pos}
use network_program.Http.{str, Request, ok, equal_text}
use network_program.Http.Number.{decimal}
use network_program.Http.Respond.{System, respond_to}
use network_program.Http.Respond.File.{
  IsServed, IsDate, Response, contents, blocks_of, respond_to-Response,
}
use network_program.Http.Respond.Head.{EndsHeader, IsBody, respond_to-with_method}
use network_program.Http.Respond.Status.{
  has_file, HasStatus, status_for, method_of, respond_to-HasStatus,
}
use network_program.Http.Start.{Host, Process, setup_environment, returns, Address}
use network_program.Http.Start.Environment.{HasDropped, setup_environment-HasDropped}

abbrev now : List ℕ
now = str "Thu, 01 Jan 1970 00:00:00 GMT"

-- One regular file, which is read in two blocks.
abbrev file_blocks : List (ℕ × List ℕ)
file_blocks = (b'a', b'b' ∷ []) ∷ (b'c', []) ∷ []

abbrev sys : System
sys = record {
  date = some now;
  lstat = λ p. some (record { is_regular = true; st_size = 3 });
  open_file = λ p. some (blocks_of file_blocks);
  fwrite_ok = true;
}

abbrev request : List ℕ → Request
request method = record {
  protocol_minor_version = pos 0;
  method = method;
  path = str "/f";
  header = [];
  body = [];
  length_of_body = 0;
}

now-IsDate : IsDate now
now-IsDate = record {
  clean = record { non_nul = omega arith; no_newline = ground arith };
  no_blank = refl;
  short = omega arith;
}

get-IsServed : IsServed sys (str "/srv") (request (str "GET")) now file_blocks
unfolding equal_text
get-IsServed = record {
  method_get = refl;
  not_head = refl;
  date_is = refl;
  is_date = now-IsDate;
  regular = refl;
  opens = refl;
  writes = refl;
  size = omega arith;
}

respond_to-Response_example :
    (out : List ℕ) × (respond_to sys (str "/srv") (request (str "GET")) ≡ ok out)
    × Response out (contents file_blocks)
respond_to-Response_example =
    respond_to-Response sys (str "/srv") (request (str "GET")) now file_blocks get-IsServed

abbrev head_response : List ℕ
head_response =
    str
      "HTTP/1.0 200 OK\r\nDate: Thu, 01 Jan 1970 00:00:00 GMT\r\nServer: LittleHTTP/1.0\r\nConnection: close\r\nContent-Length: 3\r\nContent-Type: text/plain\r\n\r\n"

head_is_answered : respond_to sys (str "/srv") (request (str "HEAD")) ≡ ok head_response
unfolding respond_to equal_text decimal
head_is_answered = refl

respond_to-HasStatus_example :
    HasStatus
      (status_for (method_of (str "HEAD")) (has_file sys (str "/srv") (str "/f")))
      head_response
respond_to-HasStatus_example =
    respond_to-HasStatus sys (str "/srv") (request (str "HEAD")) head_response head_is_answered

abbrev get_response : List ℕ
get_response = head_response ++ str "abc"

get_is_answered : respond_to sys (str "/srv") (request (str "GET")) ≡ ok get_response
unfolding respond_to equal_text decimal
get_is_answered = refl

respond_to-with_method_example :
    (front : List ℕ) × (body : List ℕ) × (respond_to sys (str "/srv") (request (str "HEAD"))
      ≡ ok front)
    × (get_response ≡ front ++ body)
    × EndsHeader front
    × IsBody sys (str "/srv") (str "/f") body
respond_to-with_method_example =
    respond_to-with_method sys (str "/srv") (request (str "HEAD")) get_response get_is_answered

-- A host on which `chroot` fails and all else succeeds.
abbrev no_jail : Host
no_jail = record {
  getgrnam = λ g. some 100;
  getpwnam = λ u. some 7;
  setgid = λ g. true;
  initgroups = λ u g. true;
  chroot = λ r. false;
  setuid = λ u. true;
}

abbrev as_root : Process
as_root = record { gid = 0; groups_of = none; uid = 0; root = none }

abbrev as_user : Process
as_user = record { gid = 100; groups_of = some (str "www"); uid = 7; root = none }

no_jail_returns :
    setup_environment no_jail (str "/srv") (some (str "www")) (some (str "web")) as_root
    ≡ returns as_user
unfolding setup_environment
no_jail_returns = refl

setup_environment-HasDropped_example :
    (setup_environment no_jail (str "/srv") (some (str "www")) (some (str "web")) as_root
      ≡ returns as_user)
    ↔ HasDropped no_jail (str "/srv") (some (str "www")) (some (str "web")) as_root as_user
setup_environment-HasDropped_example =
    setup_environment-HasDropped no_jail (str "/srv") (some (str "www")) (some (str "web")) as_root
      as_user

abbrev addresses : List Address
addresses =
    record { socket = none; bind_ok = true; listen_ok = true }
    ∷ record { socket = some 4; bind_ok = false; listen_ok = true }
    ∷ record { socket = some 5; bind_ok = true; listen_ok = true }
    ∷ []
