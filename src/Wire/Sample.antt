-- ===== src/Wire/Sample.antt =====
-- A protobuf library whose lengths and numbers take one place each, for the tests.
use mathlib.Core.Option
use grpc_cplugplug_example.Base.{
  ℕ, zero, suc, ◌+◌, ◌≤◌, ◌≡◌, refl, ap, ◌∙◌, Bool, true, ◌&&◌, Option, none, some, List, [], ◌∷◌,
  ◌++◌, take, drop, take-append, drop-append, length, length-append, length-drop, ltb, ◌==◌,
  if◌then◌else◌, arith,
}
use grpc_cplugplug_example.Base.Int.{ℤ, pos, negsuc}
use grpc_cplugplug_example.Wire.{Field, chunk, varint, Codec}
use grpc_cplugplug_example.Wire.Laws.{Emits, Laws}

-- A kind, a number, the length and the bytes.
abbrev write : ℕ → ℕ → List ℕ → List ℕ
write kind n s = kind ∷ n ∷ length s ∷ s

abbrev int_of : List ℕ → ℤ
int_of (sign ∷ m ∷ s) = if sign == 0 then pos m else negsuc m
int_of _ = pos 0

abbrev int_bytes : ℤ → List ℕ
int_bytes (pos m) = 0 ∷ m ∷ []
int_bytes (negsuc m) = 1 ∷ m ∷ []

abbrev field_of : ℕ → ℕ → List ℕ → Field
field_of kind n s = if kind == 2 then chunk n s else varint n (int_of s)

abbrev fields_on : ℕ → List ℕ → Option (List Field)
fields_on zero [] = some []
fields_on zero (x ∷ bs) = none
fields_on (suc f) [] = some []
fields_on (suc f) (kind ∷ []) = none
fields_on (suc f) (kind ∷ n ∷ []) = none
fields_on (suc f) (kind ∷ n ∷ k ∷ bs) =
    Option.map (λ fs. field_of kind n (take k bs) ∷ fs) (fields_on f (drop k bs))

abbrev entry_of : List ℕ → Option (List ℕ × List ℕ)
entry_of [] = none
entry_of (k ∷ bs) = some (take k bs, drop k bs)

abbrev entry_bytes : List ℕ × List ℕ → List ℕ
entry_bytes (k, v) = length k ∷ k ++ v

abbrev ascii : List ℕ → Bool
ascii [] = true
ascii (c ∷ s) = ltb c 128 && ascii s

abbrev pub one_place : Codec
one_place = record {
  write_string = λ n s. write 2 n s;
  string_size = λ s. 2 + length s;
  write_int32 = λ n v. write 0 n (int_bytes v);
  int32_size_plus_one = λ v. 5;
  write_message = λ n bs. write 2 n bs;
  message_size = λ k. 2 + k;
  write_entry = λ n e. write 2 n (entry_bytes e);
  entry_size = λ e. 3 + (length e.0 + length e.1);
  fields = λ bs. fields_on (length bs) bs;
  entry_of = entry_of;
  is_utf8 = ascii;
}

-- More fuel than bytes makes no difference.
fields_on_enough :
    (f g : ℕ) (bs : List ℕ) → length bs ≤ f → length bs ≤ g → fields_on f bs ≡ fields_on g bs
fields_on_enough zero zero bs p q = refl
fields_on_enough zero (suc g) [] p q = refl
fields_on_enough zero (suc g) (x ∷ bs) p q = absurd (omega (arith, p))
fields_on_enough (suc f) zero [] p q = refl
fields_on_enough (suc f) zero (x ∷ bs) p q = absurd (omega (arith, q))
fields_on_enough (suc f) (suc g) [] p q = refl
fields_on_enough (suc f) (suc g) (kind ∷ []) p q = refl
fields_on_enough (suc f) (suc g) (kind ∷ n ∷ []) p q = refl
fields_on_enough (suc f) (suc g) (kind ∷ n ∷ k ∷ bs) p q =
    ap (Option.map (λ fs. field_of kind n (take k bs) ∷ fs)) (
      fields_on_enough f g (drop k bs) (omega (arith, p, length-drop k bs))
        (omega (arith, q, length-drop k bs)))

write-Emits : (kind n : ℕ) (s : List ℕ) → Emits one_place (write kind n s) (field_of kind n s ∷ [])
write-Emits kind n s rest =
    rw (take-append s rest, drop-append s rest)
      (ap (Option.map (λ fs. field_of kind n s ∷ fs)) (
        fields_on_enough (suc (suc (length (s ++ rest)))) (length rest) rest
          (omega (arith, length-append s rest)) (omega arith)))

int_of-int_bytes : (v : ℤ) → int_of (int_bytes v) ≡ v
int_of-int_bytes (pos m) = refl
int_of-int_bytes (negsuc m) = refl

length-int_bytes : (v : ℤ) → length (int_bytes v) ≡ 2
length-int_bytes (pos m) = refl
length-int_bytes (negsuc m) = refl

pub one_place-Laws : Laws one_place
one_place-Laws = record {
  string_size = λ n s low short. omega arith;
  int32_size = λ n v low range. omega (arith, length-int_bytes v);
  message_size = λ n bs low short. omega arith;
  entry_size = λ n e low k v. omega (arith, length-append e.0 e.1);
  no_fields = refl;
  read_string = λ n s low short. write-Emits 2 n s;
  read_int32 = λ n v low range rest.
      write-Emits 0 n (int_bytes v) rest
      ∙ ap (λ w. Option.map (λ gs. varint n w ∷ gs) (fields_on (length rest) rest))
          (int_of-int_bytes v);
  read_message = λ n bs low short. write-Emits 2 n bs;
  read_entry = λ n e low k v. (
    entry_bytes e,
    rw (take-append e.0 e.1, drop-append e.0 e.1) refl,
    write-Emits 2 n (entry_bytes e),
  );
}
