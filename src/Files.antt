-- ===== src/Files.antt =====
-- The functions of src/utils.cpp and src/camera_service.cc that call the operating system: the file
-- system of the POSIX build, `save_file`, and the text of a time. What is called is the record `Os`.
pub mod Paths
pub mod Saving
mod Tests
use grpc_cplugplug_example.Base.{
  ℕ, ◌+◌, ◌-◌, ◌*◌, ◌/◌, ◌%◌, ◌^◌, Bool, true, false, not, Option, none, some, List, [], ◌++◌,
  length, take, ltb, leb, if◌then◌else◌, Result, ok, fault, bad_access, overflow, ◌>>=◌,
}
use grpc_cplugplug_example.Base.Int.{ℤ, pos, negsuc, eq_ℤ, ltb_ℤ, pos_part}
use grpc_cplugplug_example.Buffer
use grpc_cplugplug_example.Buffer.{Buff, bytes}
use grpc_cplugplug_example.Text.{c_str}
use grpc_cplugplug_example.Decimal.{decimal}

pub record Os : Type 1 where
  pub World : Type 0
  -- Whether `stat` gives 0.
  pub stat : List ℕ → World → Bool
  pub mkdir : List ℕ → ℕ → World → ℤ × World
  -- `getcwd` into so many bytes.
  pub getcwd : ℕ → World → Option (List ℕ)
  -- `fopen_s` with "wb".
  pub fopen : List ℕ → World → Option ℕ × World
  -- `fwrite` of these bytes, with the number of those written.
  pub fwrite : ℕ → List ℕ → World → ℕ × World
  pub fclose : ℕ → World → World
  -- `gmtime_r` and `strftime` with "%F %T.", of a `time_t`.
  pub utc_text : ℤ → List ℕ

module _ (os : Os) where
  unfoldable pub file_exist : List ℕ → os.World → Bool
  file_exist name w = os.stat (c_str name) w

  unfoldable pub mkpath_if_not_exist : List ℕ → os.World → Bool × os.World
  unfolding file_exist
  mkpath_if_not_exist logpath w =
      let r = os.mkdir (c_str logpath) 448 w in
      if file_exist logpath w
      then (true, w)
      else (if eq_ℤ r.0 (negsuc 0) then (false, r.1) else (true, r.1))

  unfoldable pub get_current_path : os.World → List ℕ
  get_current_path w = elim (os.getcwd 1024 w) [ none ↦ [] | some cwd ↦ c_str cwd ]

  -- `fwrite` reads as many bytes as the buffer says to have; a length below 0 is a `size_t` that no
  -- allocation has.
  unfoldable pub to_write : Buff → Result (List ℕ)
  to_write b =
      let len = Buffer.get_data_len b in
      let m = bytes (Buffer.get_buff b) in
      if ltb_ℤ len (pos 0)
      then fault bad_access
      else (if leb (pos_part len) (length m) then ok (take (pos_part len) m) else fault bad_access)

  -- `save_file` with the file that was opened.
  unfoldable pub save_opened : ℕ → Buff → os.World → Result (ℤ × os.World)
  unfolding to_write
  save_opened fp b w = to_write b >>= λ content.
      let r = os.fwrite fp content w in
      ok (if ltb r.0 (length content) then negsuc 0 else pos r.0, os.fclose fp r.1)

  unfoldable pub save_to : Option ℕ → Buff → os.World → Result (ℤ × os.World)
  unfolding save_opened
  save_to none b w = ok (negsuc 0, w)
  save_to (some fp) b w = save_opened fp b w

  unfoldable pub save_file : List ℕ → Buff → os.World → Result (ℤ × os.World)
  unfolding save_to
  save_file filename b w = let r = os.fopen (c_str filename) w in save_to r.0 b r.1

  -- The seconds of a `time_point`, cut off.
  unfoldable pub seconds : ℤ → ℤ
  seconds (pos n) = pos (n / 1000)
  seconds (negsuc n) = if ltb n 999 then pos 0 else negsuc ((n + 1) / 1000 - 1)

  -- `ts` as the signed number of milliseconds that the clock takes, in nanoseconds of 64 bits.
  unfoldable pub ts_to_string : ℕ → Result (List ℕ)
  unfolding seconds
  ts_to_string ts =
      let text = λ (ms : ℤ). ok (os.utc_text (seconds ms) ++ decimal (ts % 1000)) in
      if ltb (ts * 10 ^ 6) (2 ^ 63)
      then text (pos ts)
      else (if leb ((2 ^ 64 - ts) * 10 ^ 6) (2 ^ 63)
          then text (negsuc (2 ^ 64 - ts - 1))
          else fault overflow)
