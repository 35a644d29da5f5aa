-- ===== src/Http/Start/Environment.antt =====
-- What the server has given up when `setup_environment` returns.
use network_program.Prelude.{
  ℕ, ◌≡◌, refl, ap, ◌↔◌, ◌⊎◌, inl, inr, true, false, Option, none, some, List, Bool-cases,
  Option-cases, set,
}
use network_program.Http.Start.{
  Host, Process, Setup, returns, exit_1, after_groups, setup_environment,
}

-- The process has the identity of the user and the group, and has tried to change its root.
pub record HasDropped (host : Host) (root : List ℕ) (user group : Option (List ℕ))
    (ps ps' : Process) : Type 0 where
  pub name : List ℕ
  pub named : user ≡ some name
  pub group_name : List ℕ
  pub group_named : group ≡ some group_name
  pub is_uid : host.getpwnam name ≡ some ps'.uid
  pub is_gid : host.getgrnam group_name ≡ some ps'.gid
  pub set_gid : host.setgid ps'.gid ≡ true
  pub set_uid : host.setuid ps'.uid ≡ true
  pub init_groups : host.initgroups name ps'.gid ≡ true
  pub set_groups : ps'.groups_of ≡ some name
  pub jail :
      ((host.chroot root ≡ true) × (ps'.root ≡ some root))
      ⊎ ((host.chroot root ≡ false) × (ps'.root ≡ ps.root))

process_of : Process → Setup → Process
process_of d (returns ps) = ps
process_of d exit_1 = d

returns-injective : (ps ps' : Process) → returns ps ≡ returns ps' → ps ≡ ps'
unfolding process_of
returns-injective ps ps' p = ap (process_of ps) p

after_groups-HasDropped :
    (host : Host) (root name group_name : List ℕ) (ps ps' : Process) (gid uid : ℕ)
    → host.getgrnam group_name ≡ some gid
    → host.setgid gid ≡ true
    → host.initgroups name gid ≡ true
    → host.getpwnam name ≡ some uid
    → after_groups host root (record ps { gid = gid; groups_of = some name }) uid ≡ returns ps'
    → HasDropped host root (some name) (some group_name) ps ps'
unfolding after_groups
after_groups-HasDropped host root name group_name ps ps' gid uid g sg ig u e =
    let start = record ps { gid = gid; groups_of = some name } in
    elim (Bool-cases (host.setuid uid)) [
      | inr refused ↦ absurd (cc (rw refused at e))
      | inl set ↦ elim (Bool-cases (host.chroot root)) [
        | inl jailed ↦
            let same : record start { root = some root; uid = uid } ≡ ps' =
              returns-injective _ _ (rw (set, jailed) at e) in
            rw (← same) (record {
              name = name;
              named = refl;
              group_name = group_name;
              group_named = refl;
              is_uid = u;
              is_gid = g;
              set_gid = sg;
              set_uid = set;
              init_groups = ig;
              set_groups = refl;
              jail = inl (jailed, refl);
            })
        | inr free ↦
            let same : record start { uid = uid } ≡ ps' =
              returns-injective _ _ (rw (set, free) at e) in
            rw (← same) (record {
              name = name;
              named = refl;
              group_name = group_name;
              group_named = refl;
              is_uid = u;
              is_gid = g;
              set_gid = sg;
              set_uid = set;
              init_groups = ig;
              set_groups = refl;
              jail = inr (free, refl);
            })
      ]
    ]

returns-HasDropped :
    (host : Host) (root : List ℕ) (user group : Option (List ℕ)) (ps ps' : Process)
    → setup_environment host root user group ps ≡ returns ps'
    → HasDropped host root user group ps ps'
unfolding setup_environment
returns-HasDropped host root none group ps ps' e = cc
returns-HasDropped host root (some name) none ps ps' e = cc
returns-HasDropped host root (some name) (some group_name) ps ps' e =
    elim (Option-cases (host.getgrnam group_name)) [
      | inl unknown ↦ absurd (cc (rw (unknown, setup_environment) at e))
      | inr (gid, g) ↦ elim (Bool-cases (host.setgid gid)) [
        | inr refused ↦ absurd (cc (rw (g, refused, setup_environment) at e))
        | inl sg ↦ elim (Bool-cases (host.initgroups name gid)) [
          | inr refused ↦ absurd (cc (rw (g, sg, refused, setup_environment) at e))
          | inl groups ↦ elim (Option-cases (host.getpwnam name)) [
            | inl unknown ↦ absurd (cc (rw (g, sg, groups, unknown, setup_environment) at e))
            | inr (uid, u) ↦
                after_groups-HasDropped host root name group_name ps ps' gid uid g sg groups u
                  (rw (g, sg, groups, u, setup_environment) at e)
          ]
        ]
      ]
    ]

process_by :
    (ps' : Process) (gid uid : ℕ) (name : List ℕ) (root : Option (List ℕ))
    → ps'.gid ≡ gid
    → ps'.groups_of ≡ some name
    → ps'.uid ≡ uid
    → ps'.root ≡ root
    → record { gid = gid; groups_of = some name; uid = uid; root = root } ≡ ps'
process_by ps' gid uid name root g n u r = rw (← g, ← n, ← u, ← r) refl

HasDropped-returns :
    (host : Host) (root : List ℕ) (user group : Option (List ℕ)) (ps ps' : Process)
    → HasDropped host root user group ps ps'
    → setup_environment host root user group ps ≡ returns ps'
unfolding setup_environment after_groups
HasDropped-returns host root user group ps ps' d =
    rw (d.named, d.group_named, d.is_gid, d.set_gid, d.init_groups, d.is_uid, setup_environment)
      (elim d.jail [
        | inl (jailed, at_root) ↦
            rw (jailed, d.set_uid)
              (ap returns
                (process_by ps' ps'.gid ps'.uid d.name (some root) refl d.set_groups refl at_root))
        | inr (free, at_root) ↦
            rw (free, d.set_uid)
              (ap returns
                (process_by ps' ps'.gid ps'.uid d.name ps.root refl d.set_groups refl at_root))
      ])

-- `setup_environment` returns exactly where both names were given and known and `setgid`, `initgroups` and
-- `setuid` succeed, whatever `chroot` gives; the process then has the user's identity, the group's, and
-- the user's supplementary groups. Its root is the document root if `chroot` succeeds, and as it was if
-- `chroot` fails.
pub setup_environment-HasDropped :
    (host : Host) (root : List ℕ) (user group : Option (List ℕ)) (ps ps' : Process)
    → (setup_environment host root user group ps ≡ returns ps')
      ↔ HasDropped host root user group ps ps'
setup_environment-HasDropped host root user group ps ps' =
    (returns-HasDropped host root user group ps ps', HasDropped-returns host root user group ps ps')
