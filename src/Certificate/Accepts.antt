-- ===== src/Certificate/Accepts.antt =====
-- What `post_connection_check` of chapter11/ssl-server.c accepts.
use network_program.Prelude.{
  ℕ, ◌≡◌, refl, sym, ◌∙◌, ◌⊎◌, inl, inr, Bool, true, false, Option, none, some, List, [], ◌∷◌,
  if◌then◌else◌, Bool-cases, Run, done, blocked, fault, ◌>>=◌,
}
use mathlib.Core.List.{Memᴰ}
use network_program.Certificate.{
  like_check_ignorecase, Extension, Cert, is_dns, check_values, check_extensions, verify_result,
  application_error, check_common_name, name_data, post_connection_check,
}
use network_program.Certificate.Matching.{Matches}
use network_program.Certificate.StarLoop.{not_both}
use network_program.Certificate.Like.{like_check_ignorecase-Matches}

-- A value called DNS that `host`, taken as the pattern, matches.
abbrev pub IsNamed : List ℕ → List (List ℕ × List ℕ) → Type 0
IsNamed host values = (v : List ℕ × List ℕ) × Memᴰ v values × (is_dns v.0 ≡ true) × Matches host v.1

-- Such a value in a subjectAltName of the certificate.
abbrev pub HasAltName : List ℕ → List Extension → Type 0
HasAltName host es = (e : Extension) × Memᴰ e es × (e.is_alt_name ≡ true) × IsNamed host e.values

then_true :
    (m rest : Run Bool)
    → (m >>= λ ok. (if ok then done true else rest)) ≡ done true
    → (m ≡ done true) ⊎ (rest ≡ done true)
then_true (done true) rest h = inl refl
then_true (done false) rest h = inr h
then_true blocked rest h = absurd (cc)
then_true fault rest h = absurd (cc)

IsNamed-cons :
    (host : List ℕ) (v : List ℕ × List ℕ) (vs : List (List ℕ × List ℕ))
    → IsNamed host vs
    → IsNamed host (v ∷ vs)
IsNamed-cons host v vs (x, within, is, p) = (x, Memᴰ.tail within, is, p)

HasAltName-cons :
    (host : List ℕ) (e : Extension) (es : List Extension)
    → HasAltName host es
    → HasAltName host (e ∷ es)
HasAltName-cons host e es (x, within, is, p) = (x, Memᴰ.tail within, is, p)

check_values-IsNamed :
    (host : List ℕ) (values : List (List ℕ × List ℕ))
    → check_values host values ≡ done true
    → IsNamed host values
unfolding check_values
check_values-IsNamed host [] h = absurd (cc)
check_values-IsNamed host ((name, value) ∷ values) h = elim (Bool-cases (is_dns name)) [
  | inr not_dns ↦
      let go : check_values host ((name, value) ∷ values) ≡ check_values host values =
        rw not_dns refl in
      IsNamed-cons host (name, value) values (check_values-IsNamed host values (sym go ∙ h))
  | inl dns ↦
      let go : check_values host ((name, value) ∷ values) ≡ (
          like_check_ignorecase value host >>= λ ok.
          (if ok then done true else check_values host values)) =
        rw dns refl in
      elim (then_true _ _ (sym go ∙ h)) [
        | inl like ↦ (
          (name, value),
          Memᴰ.head refl,
          dns,
          (like_check_ignorecase-Matches host value).0.0 like,
        )
        | inr on ↦ IsNamed-cons host (name, value) values (check_values-IsNamed host values on)
      ]
]

check_extensions-HasAltName :
    (host : List ℕ) (es : List Extension)
    → check_extensions host es ≡ done true
    → HasAltName host es
unfolding check_extensions
check_extensions-HasAltName host [] h = absurd (cc)
check_extensions-HasAltName host (e ∷ es) h = elim (Bool-cases e.is_alt_name) [
  | inr another ↦
      let go : check_extensions host (e ∷ es) ≡ check_extensions host es = rw another refl in
      HasAltName-cons host e es (check_extensions-HasAltName host es (sym go ∙ h))
  | inl alt ↦ elim (Bool-cases e.method_ok) [
    | inr no_method ↦ absurd (not_both _ h (rw (alt, no_method) refl))
    | inl method ↦
        let go : check_extensions host (e ∷ es) ≡ (
            check_values host e.values >>= λ ok.
            (if ok then done true else check_extensions host es)) =
          rw (alt, method) refl in
        elim (then_true _ _ (sym go ∙ h)) [
          | inl named ↦ (e, Memᴰ.head refl, alt, check_values-IsNamed host e.values named)
          | inr on ↦ HasAltName-cons host e es (check_extensions-HasAltName host es on)
        ]
  ]
]

-- No commonName or an empty one, or one whose first 255 bytes, as far as their first NUL, are a pattern
-- that matches the host.
abbrev pub IsCommonName : List ℕ → Option (List ℕ) → Type 0
IsCommonName host common_name =
    (common_name ≡ none)
    ⊎ ((common_name ≡ some [])
        ⊎ ((name : List ℕ) × (common_name ≡ some name) × Matches (name_data name) host))

check_common_name-IsCommonName :
    (host : List ℕ) (common_name : Option (List ℕ))
    → check_common_name host common_name ≡ done verify_result
    → IsCommonName host common_name
unfolding check_common_name
check_common_name-IsCommonName host none h = inl refl
check_common_name-IsCommonName host (some []) h = inr (inl refl)
check_common_name-IsCommonName host (some (b ∷ bs)) h =
    let name = name_data (b ∷ bs) in
    elim (like_check_ignorecase host name)
        as (λ m.
          like_check_ignorecase host name ≡ m
          → (m >>= λ ok. done (if ok then verify_result else application_error))
            ≡ done verify_result
          → IsCommonName host (some (b ∷ bs))) [
            | done true ↦
                λ e k. inr (inr (b ∷ bs, refl, (like_check_ignorecase-Matches name host).0.0 e))
            | done false ↦ λ e k. absurd (cc)
            | blocked ↦ λ e k. absurd (cc)
            | fault ↦ λ e k. absurd (cc)
          ]
      refl h

-- A certificate that `post_connection_check` lets through has a DNS value in a subjectAltName that the
-- host, taken as the pattern, matches, or no commonName or an empty one, or a commonName whose first 255
-- bytes, as far as their first NUL, are as a pattern one that matches the host.
pub post_connection_check-Accepted :
    (host : List ℕ) (cert : Cert)
    → post_connection_check (some host) (some cert) ≡ done verify_result
    → HasAltName host cert.extensions ⊎ IsCommonName host cert.common_name
unfolding post_connection_check
post_connection_check-Accepted host cert h =
    elim (check_extensions host cert.extensions)
        as (λ m.
          check_extensions host cert.extensions ≡ m
          → (m >>= λ ok.
              (if ok then done verify_result else check_common_name host cert.common_name))
            ≡ done verify_result
          → HasAltName host cert.extensions ⊎ IsCommonName host cert.common_name) [
            | done true ↦ λ e k. inl (check_extensions-HasAltName host cert.extensions e)
            | done false ↦ λ e k. inr (check_common_name-IsCommonName host cert.common_name k)
            | blocked ↦ λ e k. absurd (cc)
            | fault ↦ λ e k. absurd (cc)
          ]
      refl h
