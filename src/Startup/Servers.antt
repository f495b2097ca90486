-- ===== src/Startup/Servers.antt =====
-- cmds/events-service/main.go with internal/automation/bundle/discover.go: the whole start, and
-- whom the requests to its two servers come from.
use events_service.Base.{
  ◌∙◌, ℕ, List, [], ◌∷◌, ◌++◌, map, All, Bool, true, false, String, Option, none, some, done, ◌≡◌,
  refl, ap, Bool-cases, ◌⊎◌, inl, inr, ◌==◌, string_eq, eq_iff, ◌≢◌, arith,
}
use events_service.Base.Try.{Try, returned, thrown}
use events_service.Text.{option_or}
use events_service.FilePath.{FilePath}
use events_service.Archive.{FileSystem}
use events_service.Engine.{with_discoverer}
use events_service.Modules.{Registry}
use events_service.Bundle.{Bundle, PrepareEnv}
use events_service.Bundle.Discover.{DiscoverEnv, discover}
use events_service.Bundle.Discover.Laws.{Found, discover-Found, All-append}
use events_service.Startup.{
  Stage, Settings, Server, RemoteUser, Context, Started, started, startup, failed_stage,
  before_bundles, after_bundles, bundles_of, servers_of, user_at, remote_user, service_account,
}
use events_service.Startup.Bundles.{Fresh, Returning, prepared_alone, prepare_each-alone}

Found-Fresh : (env : DiscoverEnv) (bs : List Bundle) → All (Found env) bs → All Fresh bs
Found-Fresh env [] found = tt
Found-Fresh env (b ∷ bs) ((fs, from), found) = (
  (ap (λ (x : Bundle). x.locked) from.bundle, ap (λ (x : Bundle). x.runtime) from.bundle),
  Found-Fresh env bs found,
)

-- The stages all pass, or there is a first one that does not.
failed_stage-cases :
    (returns : Stage → Bool) (ss : List Stage)
    → ((s : Stage) × (returns s ≡ false) × (failed_stage returns ss ≡ some s))
      ⊎ (All (λ s. returns s ≡ true) ss × (failed_stage returns ss ≡ none))
unfolding failed_stage
failed_stage-cases returns [] = inr (tt, refl)
failed_stage-cases returns (s ∷ ss) = elim (Bool-cases (returns s)) [
  | inl passes ↦ elim (failed_stage-cases returns ss) [
    | inl (s', fails, first) ↦ inl (s', fails, rw passes first)
    | inr (pass, none_failed) ↦ inr ((passes, pass), rw passes none_failed)
  ]
  | inr fails ↦ inl (s, fails, rw fails refl)
]

module _ (env : DiscoverEnv) (fuel : ℕ) (fs fs' : FileSystem) (root : FilePath)
    (found : Option (List Bundle)) (discovers : discover env fuel fs root ≡ some (fs', found)) where
  Fresh-found : (bs : Option (List Bundle)) → found ≡ bs → All Fresh (option_or bs [])
  Fresh-found none e = tt
  Fresh-found (some bs) e =
      Found-Fresh env bs
        (discover-Found env fuel fs fs' root bs (discovers ∙ ap (λ o. some (fs', o)) e))

  Fresh-bundles_of : (cfg : Settings) → All Fresh (bundles_of cfg (λ path. found))
  unfolding bundles_of
  Fresh-bundles_of cfg = elim (Bool-cases (cfg.script_path == "")) [
    | inl unset ↦ rw unset tt
    | inr set ↦ rw set (Fresh-found found refl)
  ]

  -- Where Discover ends, every script returns and so does every call whose error main looks at, main
  -- ends. Either it exits at a stage that returned an error; or no stage
  -- did, each bundle that Discover found was prepared as if it were alone, and there are two servers:
  -- with IDM_URL, the user of a request is the one in its header on the server at the public address,
  -- whatever the request's context held before, and the service account with the role idm_superuser on
  -- the server at the admin address; without IDM_URL no request to either has a user. (No one is
  -- writing to the module registry.)
  pub startup-ends :
      (returns : Stage → Bool) (cfg : Settings) (envs : Bundle → PrepareEnv) (printer catalog : ℕ)
      (reg : Registry)
      → reg.lock.writer ≡ false
      → ((b : Bundle) → Returning (envs b))
      → ((s : Stage) × (returns s ≡ false)
          × (startup returns cfg (λ path. found) envs printer catalog reg ≡ done (thrown s)))
        ⊎ (All (λ s. returns s ≡ true) (before_bundles ++ after_bundles)
            × (e : Started) × (startup returns cfg (λ path. found) envs printer catalog reg
                ≡ done (returned e))
            × (map
                  (prepared_alone envs cfg.automation printer (with_discoverer catalog ∷ []) reg)
                  (bundles_of cfg (λ path. found))
                ≡ map done e.prepared)
            × (public_server : Server) × (admin_server : Server) × (e.servers
                ≡ public_server ∷ admin_server ∷ [])
            × (public_server.address ≡ cfg.listen_address)
            × (admin_server.address ≡ cfg.admin_listen_address)
            × ((ctx : Context) (peer : String) (header : Try String RemoteUser)
                → ((cfg.idm_url ≡ "")
                    × (user_at cfg public_server ctx peer header ≡ none)
                    × (user_at cfg admin_server ctx peer header ≡ none))
                  ⊎ ((cfg.idm_url ≢ "")
                      × (user_at cfg public_server ctx peer header ≡ some header)
                      × (user_at cfg admin_server ctx peer header
                          ≡ some (returned (service_account peer))))))
  unfolding startup servers_of user_at remote_user
  startup-ends returns cfg envs printer catalog reg free returning =
      let opts = with_discoverer catalog ∷ [] in
      let (rs, reg', run, alone) =
        prepare_each-alone envs cfg.automation printer opts returning
          (bundles_of cfg (λ path. found)) reg (Fresh-bundles_of cfg) free in
      elim (failed_stage-cases returns before_bundles) [
        | inl (s, fails, first) ↦ inl (s, fails, rw (startup, first) refl)
        | inr (pass, passed) ↦ elim (failed_stage-cases returns after_bundles) [
          | inl (s, fails, later) ↦ inl (s, fails, rw (startup, passed, run, later) refl)
          | inr (pass', passed') ↦ inr (
            All-append (λ s. returns s ≡ true) before_bundles after_bundles pass pass',
            started returns cfg (rs, reg'),
            rw (startup, passed, run, passed') refl,
            alone,
            record { address = cfg.listen_address; server_key = "public" },
            record { address = cfg.admin_listen_address; server_key = "admin" },
            refl,
            refl,
            refl,
            λ ctx peer header. elim (Bool-cases (cfg.idm_url == "")) [
              | inl unset ↦ inl ((eq_iff cfg.idm_url "").0 unset, rw unset refl, rw unset refl)
              | inr set ↦ inr (
                λ empty. absurd (ground (arith, eq_iff cfg.idm_url "")),
                rw set refl,
                rw set refl,
              )
            ],
          )
        ]
      ]
