-- ===== src/Files/Tests.antt =====
-- An operating system with one file at a time, and directories that are made.
use grpc_cplugplug_example.Base.{
  ℕ, ◌≡◌, refl, ◌==◌, Bool, true, false, ◌&&◌, none, some, List, [], ◌∷◌, length, arith,
  if◌then◌else◌, Returns, ok,
}
use grpc_cplugplug_example.Base.Int.{pos, negsuc}
use grpc_cplugplug_example.Buffer.{Buff}
use grpc_cplugplug_example.Provider.Map.{text_eq, text_eq_iff}
use grpc_cplugplug_example.Decimal.{decimal}
use grpc_cplugplug_example.Files.{
  Os, file_exist, mkpath_if_not_exist, save_file, seconds, ts_to_string,
}
use grpc_cplugplug_example.Files.Paths.{MkdirLaws, mkpath_if_not_exist-file_exist}
use grpc_cplugplug_example.Files.Saving.{FileLaws, Saved, save_file-Saved}

abbrev there : List (List ℕ) → List ℕ → Bool
there [] p = false
there (d ∷ ds) p = if text_eq d p then true else there ds p

-- The directories, and whether the one file is open.
abbrev Disk : Type 0
Disk = List (List ℕ) × Bool

abbrev one_file : Os
one_file = record {
  World = Disk;
  stat = λ p w. there w.0 p;
  mkdir = λ p mode w. if length p == 0 then (negsuc 0, w) else (pos 0, (p ∷ w.0, w.1));
  getcwd = λ n w. some (b'/' ∷ []);
  fopen = λ p w. if w.1 then (none, w) else (some 3, (w.0, true));
  fwrite = λ fp content w. (length content, w);
  fclose = λ fp w. if fp == 3 then (w.0, false) else w;
  utc_text = λ t. [];
}

text_eq_refl : (p : List ℕ) → text_eq p p ≡ true
text_eq_refl p = (text_eq_iff p p).1 refl

one_file-MkdirLaws : MkdirLaws one_file
one_file-MkdirLaws = record {
  failed = λ p mode w e. ground arith;
  made = λ p mode w e. ground (arith, text_eq_refl p);
}

one_file-FileLaws : FileLaws one_file
one_file-FileLaws = record {
  is_open = λ f w. f == 3 && w.1;
  not_opened = λ p w e f. ground arith;
  opened = λ p w fp e. ground arith;
  written = λ fp content w. (omega arith, λ f. refl);
  closed = λ fp w. ground arith;
}

mkpath_if_not_exist-file_exist_example :
    let r = mkpath_if_not_exist one_file (b'/' ∷ b'l' ∷ []) ([], false) in
    r.0 ≡ file_exist one_file (b'/' ∷ b'l' ∷ []) r.1
mkpath_if_not_exist-file_exist_example =
    mkpath_if_not_exist-file_exist one_file one_file-MkdirLaws (b'/' ∷ b'l' ∷ []) ([], false)

abbrev two_bytes : Buff
two_bytes = record { buff = some (1 ∷ 2 ∷ 0 ∷ []); buff_max_size = 3; data_size = 2 }

save_file-Saved_example :
    Returns
      (Saved one_file one_file-FileLaws 2 ([], false))
      (save_file one_file (b'p' ∷ []) two_bytes ([], false))
save_file-Saved_example =
    save_file-Saved one_file one_file-FileLaws (b'p' ∷ []) two_bytes ([], false)
      (record { shape = refl; fits = omega arith; word = omega arith }) (omega arith)

-- The milliseconds behind the point are not padded: five of them look like five hundred.
five_milliseconds : ts_to_string one_file 1005 ≡ ok (b'5' ∷ [])
unfolding ts_to_string seconds decimal
five_milliseconds = refl
