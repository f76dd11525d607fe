-- ===== src/Provider/Address.antt =====
-- The text of an address.
use grpc_cplugplug_example.Base.{
  ℕ, ◌+◌, ◌-◌, ◌*◌, ◌/◌, ◌%◌, ◌^◌, ◌<◌, ◌≤◌, ◌≡◌, refl, List, [], ◌∷◌, ◌++◌, ◌==◌, if◌then◌else◌,
  arith, ◌∙◌, sym, ap, append-nil, false,
}
use grpc_cplugplug_example.Decimal.{
  decimal, read_digits, AreDigits, decimal-AreDigits, read_digits-decimal,
}
use grpc_cplugplug_example.Provider.Metas.{ip_addr}

-- Reading a dotted address: the parts that are read, and the part that is being read.
pub read_ip : ℕ → ℕ → List ℕ → ℕ
read_ip total part [] = total * 256 + part
read_ip total part (c ∷ s) =
    read_ip (if c == b'.' then total * 256 + part else total)
      (if c == b'.' then 0 else part * 10 + (c - b'0')) s

digit_not_dot : (d : ℕ) → b'0' ≤ d → (d == b'.') ≡ false
digit_not_dot d h = ground (arith, h)

read_ip-digits :
    (total part : ℕ) (ds s : List ℕ)
    → AreDigits ds
    → read_ip total part (ds ++ s) ≡ read_ip total (read_digits part ds) s
unfolding read_ip read_digits
read_ip-digits total part [] s h = refl
read_ip-digits total part (d ∷ ds) s h =
    rw (read_ip, digit_not_dot d h.0) (read_ip-digits total (part * 10 + (d - b'0')) ds s h.2)

read_part :
    (total n : ℕ) (s : List ℕ)
    → read_ip total 0 (decimal n ++ (b'.' ∷ s)) ≡ read_ip (total * 256 + n) 0 s
unfolding read_ip
read_part total n s =
    read_ip-digits total 0 (decimal n) (b'.' ∷ s) (decimal-AreDigits n)
    ∙ rw (read_digits-decimal n) refl

read_last : (total n : ℕ) → read_ip total 0 (decimal n) ≡ total * 256 + n
unfolding read_ip
read_last total n =
    sym (ap (read_ip total 0) (append-nil (decimal n)))
    ∙ read_ip-digits total 0 (decimal n) [] (decimal-AreDigits n)
    ∙ rw (read_digits-decimal n) refl

-- Four bytes of an address, the highest first, whose decimal numbers with dots between them are the
-- text.
pub record Dotted (ip : ℕ) (s : List ℕ) : Type 0 where
  pub a : ℕ
  pub b : ℕ
  pub c : ℕ
  pub d : ℕ
  pub bytes : (a < 256) × (b < 256) × (c < 256) × (d < 256)
  pub address : ip ≡ a * 2 ^ 24 + b * 2 ^ 16 + c * 2 ^ 8 + d
  pub text : s ≡ decimal a ++ (b'.' ∷ (decimal b ++ (b'.' ∷ (decimal c ++ (b'.' ∷ decimal d)))))

ip_addr-Dotted : (ip : ℕ) → ip < 2 ^ 32 → Dotted ip (ip_addr ip)
unfolding ip_addr
ip_addr-Dotted ip h = record {
  a = ip / 2 ^ 24 % 256;
  b = ip / 2 ^ 16 % 256;
  c = ip / 2 ^ 8 % 256;
  d = ip % 256;
  bytes = (omega arith, omega arith, omega arith, omega arith);
  address = omega (arith, h);
  text = refl;
}

-- The text that is given out for an address below 2 ^ 32 is its four bytes in decimal, the highest
-- first, with a dot between any two, and from that text the address can be read back.
pub read_ip-ip_addr :
    (ip : ℕ) → ip < 2 ^ 32 → Dotted ip (ip_addr ip) × (read_ip 0 0 (ip_addr ip) ≡ ip)
unfolding ip_addr
read_ip-ip_addr ip h = (
  ip_addr-Dotted ip h,
  rw
      (
        read_part 0 (ip / 2 ^ 24 % 256),
        read_part (0 * 256 + ip / 2 ^ 24 % 256) (ip / 2 ^ 16 % 256),
        read_part ((0 * 256 + ip / 2 ^ 24 % 256) * 256 + ip / 2 ^ 16 % 256) (ip / 2 ^ 8 % 256),
        read_last
            (((0 * 256 + ip / 2 ^ 24 % 256) * 256 + ip / 2 ^ 16 % 256) * 256 + ip / 2 ^ 8 % 256)
            (ip % 256),
      )
      (omega (arith, h)),
)
