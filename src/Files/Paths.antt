-- ===== src/Files/Paths.antt =====
-- `mkpath_if_not_exist` of src/utils.cpp.
use grpc_cplugplug_example.Base.{ℕ, ◌≡◌, refl, sym, ◌∙◌, List, true, false, inl, inr, Bool-cases}
use grpc_cplugplug_example.Base.Int.{negsuc, eq_ℤ}
use grpc_cplugplug_example.Text.{c_str}
use grpc_cplugplug_example.Files.{Os, file_exist, mkpath_if_not_exist}

-- What POSIX says of `mkdir`: where it gives -1 no directory is made, and else there is one.
pub record MkdirLaws (os : Os) : Type 0 where
  pub failed :
      (p : List ℕ) (mode : ℕ) (w : os.World)
      → eq_ℤ (os.mkdir p mode w).0 (negsuc 0) ≡ true
      → os.stat p (os.mkdir p mode w).1 ≡ os.stat p w
  pub made :
      (p : List ℕ) (mode : ℕ) (w : os.World)
      → eq_ℤ (os.mkdir p mode w).0 (negsuc 0) ≡ false
      → os.stat p (os.mkdir p mode w).1 ≡ true

-- With an operating system whose `mkdir` behaves as documented, `mkpath_if_not_exist` says exactly
-- whether something exists under the path afterwards, be it a directory or not.
pub mkpath_if_not_exist-file_exist :
    (os : Os)
    → MkdirLaws os
    → (p : List ℕ) (w : os.World) → let r = mkpath_if_not_exist os p w in r.0 ≡ file_exist os p r.1
unfolding mkpath_if_not_exist file_exist
mkpath_if_not_exist-file_exist os laws p w = elim (Bool-cases (os.stat (c_str p) w)) [
  | inl there ↦ rw there (rw there refl)
  | inr missing ↦ elim (Bool-cases (eq_ℤ (os.mkdir (c_str p) 448 w).0 (negsuc 0))) [
    | inl fails ↦ rw (missing, fails) (sym (laws.failed (c_str p) 448 w fails ∙ missing))
    | inr makes ↦ rw (missing, makes) (sym (laws.made (c_str p) 448 w makes))
  ]
]
