-- ===== src/Http/Start.antt =====
-- The start of the server (httpd/httpd2.c): the options, the environment that it gives up, and the
-- socket that it listens on. What the system's calls give is an argument.
pub mod Environment
pub mod Listen
use network_program.Prelude.{
  ℕ, Bool, true, not, Option, none, some, List, [], ◌∷◌, ◌==◌, if◌then◌else◌,
}

-- An option as `getopt_long` gives it.
pub data Opt : Type 0 where
  opt_debug opt_chroot opt_help opt_unknown : Opt
  opt_user opt_group opt_port : List ℕ → Opt

-- The variables that the loop over the options sets.
pub record Options : Type 0 where
  pub do_chroot : Bool
  pub user : Option (List ℕ)
  pub group : Option (List ℕ)
  pub port : Option (List ℕ)

-- The loop goes on to the end of the options, or ends the process with a status.
pub data Parsed : Type 0 where
  parsed : Options → Parsed
  exit : ℕ → Parsed

unfoldable pub parse_options : Options → List Opt → Parsed
parse_options o [] = parsed o
parse_options o (opt_debug ∷ opts) = parse_options o opts
parse_options o (opt_chroot ∷ opts) = parse_options (record o { do_chroot = true }) opts
parse_options o (opt_user user ∷ opts) = parse_options (record o { user = some user }) opts
parse_options o (opt_group group ∷ opts) = parse_options (record o { group = some group }) opts
parse_options o (opt_port port ∷ opts) = parse_options (record o { port = some port }) opts
parse_options o (opt_help ∷ opts) = exit 0
parse_options o (opt_unknown ∷ opts) = exit 1

-- What the calls of `setup_environment` give: an identifier, or whether the call succeeds.
pub record Host : Type 0 where
  pub getgrnam : List ℕ → Option ℕ
  pub getpwnam : List ℕ → Option ℕ
  pub setgid : ℕ → Bool
  pub initgroups : List ℕ → ℕ → Bool
  pub chroot : List ℕ → Bool
  pub setuid : ℕ → Bool

-- The process: who it runs as, and the root that it sees, `none` for the one it started with.
pub record Process : Type 0 where
  pub gid : ℕ
  pub groups_of : Option (List ℕ)
  pub uid : ℕ
  pub root : Option (List ℕ)

-- `setup_environment` returns, or ends the process.
pub data Setup : Type 0 where
  returns : Process → Setup
  exit_1 : Setup

after_groups : Host → List ℕ → Process → ℕ → Setup
after_groups host root ps uid =
    let ps' = if host.chroot root then record ps { root = some root } else ps in
    if host.setuid uid then returns (record ps' { uid = uid }) else exit_1

-- The result of `chroot` is not looked at.
unfoldable pub setup_environment :
    Host → List ℕ → Option (List ℕ) → Option (List ℕ) → Process → Setup
unfolding after_groups
setup_environment host root none group ps = exit_1
setup_environment host root (some user) none ps = exit_1
setup_environment host root (some user) (some group) ps = elim (host.getgrnam group) [
  | none ↦ exit_1
  | some gid ↦
      if host.setgid gid
      then if host.initgroups user gid
        then elim (host.getpwnam user) [
          | none ↦ exit_1
          | some uid ↦ after_groups host root (record ps { gid = gid; groups_of = some user }) uid
        ]
        else exit_1
      else exit_1
]

-- An address of `getaddrinfo`, with what `socket`, `bind` and `listen` give on it.
pub record Address : Type 0 where
  pub socket : Option ℕ
  pub bind_ok : Bool
  pub listen_ok : Bool

-- The descriptors that are open, last opened first, and the one returned.
pub record Listening : Type 0 where
  pub opened : List ℕ
  pub fd : Option ℕ

abbrev close : ℕ → List ℕ → List ℕ
close sock [] = []
close sock (fd ∷ fds) = if sock == fd then fds else fd ∷ close sock fds

-- The loop over the addresses. `none` is the `log_exit` behind it.
unfoldable pub listen_socket : List Address → List ℕ → Listening
listen_socket [] opened = record { opened = opened; fd = none }
listen_socket (ai ∷ res) opened = elim ai.socket [
  | none ↦ listen_socket res opened
  | some sock ↦
      let held = sock ∷ opened in
      let next = listen_socket res (close sock held) in
      if not ai.bind_ok
      then next
      else if not ai.listen_ok
      then next
      else record { opened = held; fd = some sock }
]
