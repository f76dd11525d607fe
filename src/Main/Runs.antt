-- ===== src/Main/Runs.antt =====
-- How a run of the program goes.
use grpc_cplugplug_example.Base.{
  ℕ, ◌≡◌, ◌≢◌, refl, ◌⊎◌, inl, inr, Bool, true, false, List, [], ◌∷◌, ◌++◌,
}
use grpc_cplugplug_example.Base.Int.{ℤ, pos, negsuc, nonzero}
use grpc_cplugplug_example.Text.Join.{Folder}
use grpc_cplugplug_example.Provider.Metas.{bytes_of}
use grpc_cplugplug_example.Config.{CameraServiceConfig}
use grpc_cplugplug_example.Main.{
  Action, open_log, set_level, start_server, info, Options, set_log_level,
}

-- The first text of a list that is not empty, or the one behind them.
unfoldable pub first_given : List (List ℕ) → List ℕ → List ℕ
first_given [] last = last
first_given ([] ∷ l) last = first_given l last
first_given ((c ∷ s) ∷ l) last = c ∷ s

-- What is done for the log: nothing where its folder cannot be made, and else the file is opened inside
-- of that folder.
abbrev pub LogsOpened : (List ℕ → Bool) → List ℕ → Bool → List Action → Type 0
LogsOpened mkpath folder console logs =
    ((mkpath folder ≡ false) × (logs ≡ []))
    ⊎ ((dir : List ℕ) × Folder folder dir
        × (logs ≡ open_log (dir ++ bytes_of "camera-service.log") console ∷ set_level info ∷ []))

-- A run that gets as far as the server.
pub record Served (mkpath : List ℕ → Bool) (o : Options) (c : CameraServiceConfig)
    (r : ℤ × List Action) : Type 0 where
  pub logs : List Action
  pub opened :
      LogsOpened mkpath
        (first_given (o.logpath ∷ c.logs.base ∷ []) (bytes_of "./logs"))
        o.console_exist
        logs
  pub actions : r ≡ (
    pos 0,
    logs
        ++ (set_level (set_log_level (first_given (o.loglevel ∷ []) c.logs.level))
            ∷ start_server c.service
            ∷ []),
  )

is_given : (s : List ℕ) → (s ≡ []) ⊎ ((c : ℕ) × (t : List ℕ) × (s ≡ c ∷ t))
is_given [] = inl refl
is_given (c ∷ t) = inr (c, t, refl)

-- The ends of a run, for what `load_config` gives.
pub data RunEnd (mkpath : List ℕ → Bool) (o : Options) (l : ℤ × CameraServiceConfig)
    (r : ℤ × List Action) : Type 0 where
  versioned : o.version_exist ≡ true → r ≡ (pos 0, []) → RunEnd mkpath o l r
  nameless : o.version_exist ≡ false → o.file_name ≡ [] → r ≡ (negsuc 0, []) → RunEnd mkpath o l r
  refused :
      o.version_exist ≡ false
      → o.file_name ≢ []
      → nonzero l.0 ≡ true
      → r ≡ (negsuc 0, [])
      → RunEnd mkpath o l r
  served :
      o.version_exist ≡ false
      → o.file_name ≢ []
      → l.0 ≡ pos 0
      → Served mkpath o l.1 r
      → RunEnd mkpath o l r
