-- ===== src/Provider/Names.antt =====
-- `find_camera_info_by_sn` and the use of upper-case serial numbers as keys.
use grpc_cplugplug_example.Base.{
  ℕ, ◌≡◌, ◌≢◌, refl, ◌⊎◌, inl, inr, true, false, Option, none, some, List, [], ◌∷◌, ◌==◌,
  if◌then◌else◌, Bool-cases, Option-cases, subst,
}
use grpc_cplugplug_example.Base.Int.{pos, eq_ℤ, eq_ℤ-cases}
use grpc_cplugplug_example.Buffer.{Buff}
use grpc_cplugplug_example.Text.{c_str, to_upper, local_stricmp}
use grpc_cplugplug_example.Text.Compare.{c_str-NoNul, local_stricmp_iff}
use grpc_cplugplug_example.Sdk.{DeviceInfo, Env, Sys}
use grpc_cplugplug_example.Device.Picture.{ImageParameter}
use grpc_cplugplug_example.Provider.{
  Provider, has_serial, find_info, find_camera_info_by_sn, find_or_create_camera_device,
  take_picture,
}

same_text :
    (a b : List ℕ)
    → ((eq_ℤ (local_stricmp (c_str a) (c_str b)) (pos 0) ≡ true)
        × (to_upper (c_str a) ≡ to_upper (c_str b)))
      ⊎ ((eq_ℤ (local_stricmp (c_str a) (c_str b)) (pos 0) ≡ false)
          × (to_upper (c_str a) ≢ to_upper (c_str b)))
same_text a b =
    let iff = local_stricmp_iff (c_str a) (c_str b) (c_str-NoNul a) (c_str-NoNul b) in
    elim (eq_ℤ-cases (local_stricmp (c_str a) (c_str b)) (pos 0)) [
      | inl (t, e) ↦ inl (t, iff.0 e)
      | inr (t, ne) ↦ inr (t, λ e. ne (iff.1 e))
    ]

module _ (env : Env) where
  -- The serial number of a device of a known type, read as a C string.
  abbrev pub serial_of : DeviceInfo → Option (List ℕ)
  serial_of info =
      if info.layer_type == env.mv_gige_device
      then some (c_str info.gige.serial_number)
      else if info.layer_type == env.mv_usb_device
      then some (c_str info.usb.serial_number)
      else none

  -- A device of a known type whose serial number is `sn` up to the case of its letters.
  abbrev pub Matches : List ℕ → DeviceInfo → Type 0
  Matches sn info = (a : List ℕ) × (serial_of info ≡ some a) × (to_upper a ≡ to_upper (c_str sn))

  -- No entry of the list matches.
  abbrev pub NoMatch : List ℕ → List (Option DeviceInfo) → Type 0
  NoMatch sn [] = Unit {0}
  NoMatch sn (none ∷ l) = NoMatch sn l
  NoMatch sn (some info ∷ l) = (¬ Matches sn info) × NoMatch sn l

  -- The first match of the list, with no match in front of it.
  pub data FirstMatch (sn : List ℕ) (found : DeviceInfo) : List (Option DeviceInfo) → Type 0 where
    here : (l : List (Option DeviceInfo)) → Matches sn found → FirstMatch sn found (some found ∷ l)
    skip_null :
        {l : List (Option DeviceInfo)} → FirstMatch sn found l → FirstMatch sn found (none ∷ l)
    skip :
        {l : List (Option DeviceInfo)} (other : DeviceInfo)
        → ¬ Matches sn other
        → FirstMatch sn found l
        → FirstMatch sn found (some other ∷ l)

  has_serial-Matches :
      (sn : List ℕ) (info : DeviceInfo)
      → ((has_serial env (c_str sn) info ≡ true) × Matches sn info)
        ⊎ ((has_serial env (c_str sn) info ≡ false) × (¬ Matches sn info))
  unfolding has_serial
  has_serial-Matches sn info = elim (Bool-cases (info.layer_type == env.mv_gige_device)) [
    | inl gige ↦ rw gige (elim (same_text info.gige.serial_number sn) [
      | inl (t, q) ↦ inl (t, (c_str info.gige.serial_number, refl, q))
      | inr (t, q) ↦ inr (t, λ (a, e, r). q (cc (e, r)))
    ])
    | inr not_gige ↦ elim (Bool-cases (info.layer_type == env.mv_usb_device)) [
      | inl usb ↦
          rw (not_gige, usb)
            (elim (same_text info.usb.serial_number sn) [
              | inl (t, q) ↦ inl (t, (c_str info.usb.serial_number, refl, q))
              | inr (t, q) ↦ inr (t, λ (a, e, r). q (cc (e, r)))
            ])
      | inr not_usb ↦ rw (not_gige, not_usb) (inr (refl, λ (a, e, r). cc e))
    ]
  ]

  -- What the search for a serial number gives.
  abbrev pub Searched : List ℕ → List (Option DeviceInfo) → Option DeviceInfo → Type 0
  Searched sn l none = NoMatch sn l
  Searched sn l (some info) = FirstMatch sn info l

  find_info-Searched :
      (sn : List ℕ) (l : List (Option DeviceInfo)) → Searched sn l (find_info env l (c_str sn))
  unfolding find_info
  find_info-Searched sn [] = tt
  find_info-Searched sn (none ∷ l) = elim (Option-cases (find_info env l (c_str sn))) [
    | inl e ↦ rw e (subst (Searched sn l) e (find_info-Searched sn l))
    | inr (d, e) ↦ rw e (skip_null (subst (Searched sn l) e (find_info-Searched sn l)))
  ]
  find_info-Searched sn (some info ∷ l) = elim (has_serial-Matches sn info) [
    | inl (t, q) ↦ rw t (here l q)
    | inr (t, q) ↦ elim (Option-cases (find_info env l (c_str sn))) [
      | inl e ↦ rw (t, e) (q, subst (Searched sn l) e (find_info-Searched sn l))
      | inr (d, e) ↦ rw (t, e) (skip info q (subst (Searched sn l) e (find_info-Searched sn l)))
    ]
  ]

  -- The search gives the first device of the list whose type is known and whose serial number is the
  -- one asked for up to the case of its letters, and NULL only if there is none.
  pub find_camera_info_by_sn-Searched :
      (p : Provider) (sn : List ℕ)
      → Searched sn p.camera_info_list (find_camera_info_by_sn env p sn)
  unfolding find_camera_info_by_sn
  find_camera_info_by_sn-Searched p sn = find_info-Searched sn p.camera_info_list

  -- Serial numbers that differ in the case of their letters only name the same camera: a picture for
  -- the one has the result, and leaves the state, of a picture for the other.
  pub take_picture-to_upper :
      (p : Provider) (a b : List ℕ) (param : Option ImageParameter) (buffer : Buff)
      (s : Sys env.World)
      → to_upper a ≡ to_upper b
      → take_picture env p a param buffer s ≡ take_picture env p b param buffer s
  unfolding take_picture find_or_create_camera_device
  take_picture-to_upper p a b param buffer s e = rw e
