-- ===== src/Files/Saving.antt =====
-- `save_file` of src/camera_service.cc.
use grpc_cplugplug_example.Base.{
  ◌==◌, ==_iff, ℕ, ◌≤◌, ◌<◌, ◌^◌, ◌≡◌, ◌≢◌, refl, sym, subst, ◌∙◌, ◌⊎◌, inl, inr, none, some, List,
  Bool, false, length, length-take, take, arith, ok, Returns, Returns->>=, Bool-cases, Option-cases,
}
use grpc_cplugplug_example.Base.Int.{ℤ, pos, negsuc}
use grpc_cplugplug_example.Buffer
use grpc_cplugplug_example.Buffer.{Buff, bytes}
use grpc_cplugplug_example.Buffer.Valid.{IsValid}
use grpc_cplugplug_example.Text.{c_str}
use grpc_cplugplug_example.Files.{Os, to_write, save_opened, save_to, save_file}

-- What C says of files: a file that is opened was not open before, a file that is closed is not open, no
-- call opens or closes another, and `fwrite` writes no more than it was given.
pub record FileLaws (os : Os) : Type 0 where
  pub is_open : ℕ → os.World → Bool
  pub not_opened :
      (p : List ℕ) (w : os.World)
      → (os.fopen p w).0 ≡ none
      → (f : ℕ) → is_open f (os.fopen p w).1 ≡ is_open f w
  pub opened :
      (p : List ℕ) (w : os.World) (fp : ℕ)
      → (os.fopen p w).0 ≡ some fp
      → (is_open fp w ≡ false) × ((f : ℕ) → f ≢ fp → is_open f (os.fopen p w).1 ≡ is_open f w)
  pub written :
      (fp : ℕ) (content : List ℕ) (w : os.World)
      → ((os.fwrite fp content w).0 ≤ length content)
        × ((f : ℕ) → is_open f (os.fwrite fp content w).1 ≡ is_open f w)
  pub closed :
      (fp : ℕ) (w : os.World)
      → (is_open fp (os.fclose fp w) ≡ false)
        × ((f : ℕ) → f ≢ fp → is_open f (os.fclose fp w) ≡ is_open f w)

length-bytes : (b : Buff) → IsValid b → length (bytes b.buff) ≡ b.buff_max_size
length-bytes b v = elim (Option-cases b.buff) [
  | inl e ↦ rw e (sym (rw e at v.shape))
  | inr (m, e) ↦ rw e (rw e at v.shape)
]

module _ (os : Os) (laws : FileLaws os) where
  -- The files that are open are those from before, and the result is -1 or the size of the data.
  pub record Saved (size : ℕ) (w : os.World) (r : ℤ × os.World) : Type 0 where
    pub same_open : (f : ℕ) → laws.is_open f r.1 ≡ laws.is_open f w
    pub result : (r.0 ≡ negsuc 0) ⊎ (r.0 ≡ pos size)

  to_write-length :
      (b : Buff)
      → IsValid b
      → b.data_size < 2 ^ 31
      → Returns (λ content. length content ≡ b.data_size) (to_write os b)
  unfolding to_write Buffer.get_data_len Buffer.get_buff
  to_write-length b v small =
      let content = take b.data_size (bytes b.buff) in
      let e : to_write os b ≡ ok content = ground (arith, small, v.fits, length-bytes b v) in
      rw e (omega (arith, length-take b.data_size (bytes b.buff), v.fits, length-bytes b v))

  save_opened-Saved :
      (p : List ℕ) (b : Buff) (w : os.World) (fp : ℕ)
      → IsValid b
      → b.data_size < 2 ^ 31
      → (os.fopen p w).0 ≡ some fp
      → Returns (Saved b.data_size w) (save_opened os fp b (os.fopen p w).1)
  unfolding save_opened
  save_opened-Saved p b w fp v small e =
      Returns->>= (λ content. length content ≡ b.data_size) (Saved b.data_size w) (to_write os b) _
        (to_write-length b v small)
        λ content len.
          let w1 = (os.fopen p w).1 in
          let q = laws.written fp content w1 in
          record {
            same_open = λ f. elim (Bool-cases (f == fp)) [
              | inl same ↦
                  subst
                    (λ x.
                      laws.is_open x (os.fclose fp (os.fwrite fp content w1).1) ≡ laws.is_open x w)
                    (sym ((==_iff f fp).0 same))
                    ((laws.closed fp _).0 ∙ sym (laws.opened p w fp e).0)
              | inr other ↦
                  let ne : f ≢ fp = λ x. cc ((==_iff f fp).1 x, other) in
                  (laws.closed fp _).1 f ne ∙ q.1 f ∙ (laws.opened p w fp e).1 f ne
            ];
            result = ground (arith, q.0, len);
          }

  -- With files that behave as documented, and a valid buffer with less than 2 ^ 31 bytes of data:
  -- `save_file` meets no fault, leaves open the files that were open before and no other, also where
  -- the file cannot be opened or not all is written, and gives -1 or the size of the data.
  pub save_file-Saved :
      (p : List ℕ) (b : Buff) (w : os.World)
      → IsValid b
      → b.data_size < 2 ^ 31
      → Returns (Saved b.data_size w) (save_file os p b w)
  unfolding save_file save_to
  save_file-Saved p b w v small = elim (Option-cases (os.fopen (c_str p) w).0) [
    | inl e ↦ rw e (record { same_open = λ f. laws.not_opened (c_str p) w e f; result = inl refl })
    | inr (fp, e) ↦ rw e (save_opened-Saved (c_str p) b w fp v small e)
  ]
