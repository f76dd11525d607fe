-- ===== src/Config/Loading.antt =====
-- What `load_config` makes of a document.
use Prim.Native.String.{String}
use grpc_cplugplug_example.Base.{
  ◌≡◌, refl, ap, sym, subst, inl, inr, true, false, Option, none, some, List, if◌then◌else◌,
  Bool-cases, Option-cases, ℕ,
}
use grpc_cplugplug_example.Base.Int.{ℤ, pos, negsuc}
use grpc_cplugplug_example.Config.{
  Yaml, LogConfig, GrpcService, CameraServiceConfig, Outcome, and_then, read_value, read_node,
  read_provider_config, read_logs_config, read_service_config, on_logs, on_service,
  read_camera_service, load_document, load_default_config, load_config,
}

infixl 5 ◌>>=◌
abbrev pub ◌>>=◌ : {A B : Type 0} → Option A → (A → Option B) → Option B
m >>= f = elim m [ none ↦ none | some a ↦ f a ]

-- A reader that gave the value `o` and put it into its object, or ended in an exception where
-- there is none.
abbrev Reads : {C V : Type 0} → (V → C) → Outcome C → Option V → Type 0
Reads put r none = r.0 ≡ true
Reads put r (some v) = r ≡ (false, put v)

module _ (yaml : Yaml) where
  -- The specification: each setting is the one of the document, or its default; `none` where a call
  -- of the YAML library ends in an exception. A part under a key that is defined is read from its
  -- node, and where it is not defined the default stands.
  unfoldable pub part : {V : Type 0} → yaml.Node → String → V → (yaml.Node → Option V) → Option V
  part n key d read = elim (yaml.at n key) [
    | none ↦ none
    | some m ↦ if yaml.is_defined m then read m else some d
  ]

  unfoldable pub service_of : yaml.Node → GrpcService → Option GrpcService
  unfolding part
  service_of n d = do
    port ← part n "port" d.port yaml.as_int
    host ← part n "host" d.host yaml.as_string
    some (record { host = host; port = port })

  unfoldable pub logs_of : yaml.Node → LogConfig → Option LogConfig
  unfolding part
  logs_of n d = do
    base ← part n "base" d.base yaml.as_string
    level ← part n "level" d.level yaml.as_string
    some (record { base = base; level = level })

  -- Nothing is kept of the port of the provider.
  unfoldable pub provider_of : yaml.Node → Option (Unit {0})
  unfolding part
  provider_of n = part n "port" tt (λ m. some tt)

  unfoldable pub configured : yaml.Node → CameraServiceConfig → Option CameraServiceConfig
  unfolding part provider_of logs_of service_of
  configured n d = do
    provider ← part n "provider" tt provider_of
    logs ← part n "logs" d.logs (λ m. logs_of m d.logs)
    service ← part n "service" d.service (λ m. service_of m d.service)
    some (record { service = service; logs = logs })

  unfoldable pub required : List ℕ → CameraServiceConfig → Option CameraServiceConfig
  unfolding part
  required filename d = do
    node ← yaml.load_file filename
    part node "camera-service" d (λ n. configured n d)

  then-Reads :
      {C U V : Type 0} (put : U → C) (put' : V → C) (r : Outcome C) (f : C → Outcome C)
      (o : Option U) (k : U → Option V)
      → Reads put r o
      → ((u : U) → Reads put' (f (put u)) (k u))
      → Reads put' (and_then r f) (o >>= k)
  unfolding and_then
  then-Reads put put' (true, c) f none k h g = refl
  then-Reads put put' (false, c) f none k h g = absurd (cc h)
  then-Reads put put' r f (some u) k h g =
      subst (λ x. Reads put' (and_then x f) (k u)) (sym h) (g u)

  last-Reads :
      {C V : Type 0} (put : V → C) (r : Outcome C) (o : Option V)
      → Reads put r o
      → Reads (λ c. c) r (o >>= λ v. some (put v))
  last-Reads put r none h = h
  last-Reads put r (some v) h = h

  and_then_assoc :
      {C : Type 0} (r : Outcome C) (f g : C → Outcome C)
      → and_then r (λ c. and_then (f c) g) ≡ and_then (and_then r f) g
  unfolding and_then
  and_then_assoc (true, c) f g = refl
  and_then_assoc (false, c) f g = refl

  -- A part under a key, read by `f`.
  part-Reads :
      {C V : Type 0} (put : V → C) (node : yaml.Node) (key : String) (d : V)
      (read : yaml.Node → Option V) (f : yaml.Node → C → Outcome C) (c : C)
      → put d ≡ c
      → ((m : yaml.Node) → Reads put (f m c) (read m))
      → Reads put (read_node yaml (yaml.at node key) f c) (part node key d read)
  unfolding part read_node
  part-Reads put node key d read f c h k = elim (Option-cases (yaml.at node key)) [
    | inl e ↦ rw (e, part) refl
    | inr (m, e) ↦
        rw (e, part)
          (elim (Bool-cases (yaml.is_defined m)) [
            | inl here ↦ rw here (k m)
            | inr gone ↦ rw gone (ap (λ x. (false, x)) (sym h))
          ])
  ]

  value-Reads :
      {C V : Type 0} (o : Option V) (put : V → C → C) (c : C)
      → Reads (λ v. put v c) (read_value yaml o put c) o
  unfolding read_value
  value-Reads none put c = refl
  value-Reads (some v) put c = refl

  logs-Reads :
      (n : yaml.Node) (c : LogConfig) → Reads (λ l. l) (read_logs_config yaml n c) (logs_of n c)
  unfolding read_logs_config logs_of
  logs-Reads n c =
      then-Reads (λ v. record c { base = v }) (λ l. l) _ _ _ _
        (part-Reads (λ v. record c { base = v }) n "base" c.base yaml.as_string _ c refl
          λ m. value-Reads (yaml.as_string m) (λ v c'. record c' { base = v }) c)
        λ b.
          let c1 = record c { base = b } in
          last-Reads (λ v. record c1 { level = v }) _ _
            (part-Reads (λ v. record c1 { level = v }) n "level" c.level yaml.as_string _ c1 refl
              λ m. value-Reads (yaml.as_string m) (λ v c'. record c' { level = v }) c1)

  service-Reads :
      (n : yaml.Node) (c : GrpcService)
      → Reads (λ l. l) (read_service_config yaml n c) (service_of n c)
  unfolding read_service_config service_of
  service-Reads n c =
      then-Reads (λ v. record c { port = v }) (λ l. l) _ _ _ _
        (part-Reads (λ v. record c { port = v }) n "port" c.port yaml.as_int _ c refl
          λ m. value-Reads (yaml.as_int m) (λ v c'. record c' { port = v }) c)
        λ b.
          let c1 = record c { port = b } in
          last-Reads (λ v. record c1 { host = v }) _ _
            (part-Reads (λ v. record c1 { host = v }) n "host" c.host yaml.as_string _ c1 refl
              λ m. value-Reads (yaml.as_string m) (λ v c'. record c' { host = v }) c1)

  on_logs-Reads :
      (r : Outcome LogConfig) (c : CameraServiceConfig) (o : Option LogConfig)
      → Reads (λ l. l) r o
      → Reads (λ v. record c { logs = v }) (on_logs yaml r c) o
  unfolding on_logs
  on_logs-Reads r c none h = h
  on_logs-Reads r c (some v) h = ap (λ x. (x.0, record c { logs = x.1 })) h

  on_service-Reads :
      (r : Outcome GrpcService) (c : CameraServiceConfig) (o : Option GrpcService)
      → Reads (λ l. l) r o
      → Reads (λ v. record c { service = v }) (on_service yaml r c) o
  unfolding on_service
  on_service-Reads r c none h = h
  on_service-Reads r c (some v) h = ap (λ x. (x.0, record c { service = x.1 })) h

  configured-Reads :
      (n : yaml.Node) (c : CameraServiceConfig)
      → Reads (λ x. x) (read_camera_service yaml n c) (configured n c)
  unfolding read_camera_service configured read_provider_config provider_of
  configured-Reads n c =
      let read_logs = λ (m : yaml.Node) (c' : CameraServiceConfig).
        on_logs yaml (read_logs_config yaml m c'.logs) c' in
      let read_service = λ (m : yaml.Node) (c' : CameraServiceConfig).
        on_service yaml (read_service_config yaml m c'.service) c' in
      subst (λ x. Reads (λ y. y) x (configured n c))
        (and_then_assoc (read_node yaml (yaml.at n "provider") (read_provider_config yaml) c)
          (read_node yaml (yaml.at n "logs") read_logs)
          (read_node yaml (yaml.at n "service") read_service))
        (then-Reads (λ u. c) (λ x. x) _ _ _ _
          (part-Reads (λ u. c) n "provider" tt provider_of (read_provider_config yaml) c refl
            λ m.
              part-Reads (λ u. c) m "port" tt (λ k. some tt) (λ k c'. (false, c')) c refl λ k. refl)
          λ u.
            then-Reads (λ l. record c { logs = l }) (λ x. x) _ _ _ _
              (part-Reads (λ l. record c { logs = l }) n "logs" c.logs (λ m. logs_of m c.logs)
                read_logs c refl
                λ m. on_logs-Reads (read_logs_config yaml m c.logs) c _ (logs-Reads m c.logs))
              λ l.
                let c1 = record c { logs = l } in
                last-Reads (λ v. record c1 { service = v }) _ _
                  (part-Reads (λ v. record c1 { service = v }) n "service" c.service
                    (λ m. service_of m c.service) read_service c1 refl
                    λ m.
                      on_service-Reads (read_service_config yaml m c.service) c1 _
                        (service-Reads m c.service)))

  -- A call that returns 0 with the object that is asked for, or -1 where there is none.
  abbrev pub Loads : ℤ × CameraServiceConfig → Option CameraServiceConfig → Type 0
  Loads r none = r.0 ≡ negsuc 0
  Loads r (some c) = r ≡ (pos 0, c)

  outcome-Loads :
      (r : Outcome CameraServiceConfig) (o : Option CameraServiceConfig)
      → Reads (λ x. x) r o
      → Loads (if r.0 then negsuc 0 else pos 0, r.1) o
  outcome-Loads r none h = rw h refl
  outcome-Loads r (some c) h = rw h refl

  -- `load_config` returns 0 exactly where the file can be loaded and no call of the YAML library
  -- that the settings need ends in an exception, so also none of a conversion of a value; then
  -- every setting is that of the document, and the default where the document has none. Else it
  -- returns -1. What the object held before the call does not matter.
  pub load_config-configured :
      (filename : List ℕ) (c d : CameraServiceConfig)
      → Loads (load_config yaml filename c) (required filename (load_default_config d))
  unfolding load_config load_document required load_default_config
  load_config-configured filename c d = elim (Option-cases (yaml.load_file filename)) [
    | inl e ↦ rw e refl
    | inr (node, e) ↦ rw e (
        outcome-Loads _ _ (
          part-Reads (λ x. x) node "camera-service" (load_default_config d)
            (λ n. configured n (load_default_config d)) (read_camera_service yaml)
            (load_default_config c) refl λ n. configured-Reads n (load_default_config d)))
  ]
