-- ===== src/Udp/Target.antt =====
-- The host and the port of a line (`strtok` in chapter09/u-client.c).
use network_program.Prelude.{
  ℕ, ◌≡◌, refl, ap, ◌∙◌, Bool, true, false, none, some, List, [], ◌∷◌, ◌++◌, All,
}
use network_program.Udp.{cut_token, strtok, is_colon, ends_line, with_port, with_host, target}

-- No byte is a delimiter.
abbrev pub Free : (ℕ → Bool) → List ℕ → Type 0
Free delim = All (λ c. delim c ≡ false)

cut_token-append :
    (delim : ℕ → Bool) (s : List ℕ) (d : ℕ) (rest : List ℕ)
    → Free delim s
    → delim d ≡ true
    → cut_token delim (s ++ d ∷ rest) ≡ (s, rest)
cut_token-append delim [] d rest h is = rw is refl
cut_token-append delim (c ∷ s) d rest h is = rw (h.0, cut_token-append delim s d rest h.1 is) refl

pub strtok-token :
    (delim : ℕ → Bool) (c : ℕ) (s : List ℕ) (d : ℕ) (rest : List ℕ)
    → Free delim (c ∷ s)
    → delim d ≡ true
    → strtok delim (c ∷ s ++ d ∷ rest) ≡ some (c ∷ s, rest)
unfolding strtok
strtok-token delim c s d rest h is =
    rw (h.0, strtok) (ap some (cut_token-append delim (c ∷ s) d rest h is))

-- A line with a host and a port.
abbrev pub host_port : List ℕ → List ℕ → List ℕ
host_port hostnm portnm = hostnm ++ (b':' ∷ (portnm ++ (b'\n' ∷ [])))

pub target-host_port :
    (h : ℕ) (hs : List ℕ) (p : ℕ) (ps : List ℕ)
    → Free is_colon (h ∷ hs)
    → Free ends_line (p ∷ ps)
    → target (host_port (h ∷ hs) (p ∷ ps)) ≡ some (h ∷ hs, p ∷ ps)
unfolding target
target-host_port h hs p ps host port =
    let first : strtok is_colon (host_port (h ∷ hs) (p ∷ ps))
        ≡ some (h ∷ hs, p ∷ ps ++ b'\n' ∷ []) =
      strtok-token is_colon h hs b':' (p ∷ ps ++ b'\n' ∷ []) host refl in
    let second : strtok ends_line (p ∷ ps ++ b'\n' ∷ []) ≡ some (p ∷ ps, []) =
      strtok-token ends_line p ps b'\n' [] port refl in
    ap with_host first ∙ ap (with_port (h ∷ hs)) second

cut_token-all : (delim : ℕ → Bool) (s : List ℕ) → Free delim s → cut_token delim s ≡ (s, [])
cut_token-all delim [] h = refl
cut_token-all delim (c ∷ s) h = rw (h.0, cut_token-all delim s h.1) refl

strtok-all :
    (delim : ℕ → Bool) (c : ℕ) (s : List ℕ)
    → Free delim (c ∷ s)
    → strtok delim (c ∷ s) ≡ some (c ∷ s, [])
unfolding strtok
strtok-all delim c s h = rw (h.0, strtok) (ap some (cut_token-all delim (c ∷ s) h))

-- Without a colon there is no port.
pub target-no_colon : (line : List ℕ) → Free is_colon line → target line ≡ none
unfolding target strtok
target-no_colon [] h = refl
target-no_colon (c ∷ cs) h = ap with_host (strtok-all is_colon c cs h)
