-- ===== src/Grpc/Threads/Owners.antt =====
-- How often the threads and the map point to an object.
use grpc_cplugplug_example.Base.{
  ℕ, zero, suc, ◌+◌, ◌≡◌, refl, ap, Bool-cases, inl, inr, Option, none, some, List, [], ◌∷◌,
  get_elem?, set, map, arith,
}
use grpc_cplugplug_example.Provider.Map.{text_eq, lookup, insert, erase}
use grpc_cplugplug_example.Provider.Shared.Heap.{one}
use grpc_cplugplug_example.Grpc.Serving.{Call}
use grpc_cplugplug_example.Grpc.Threads.{Stage, adding, holding, dropping, Thread, ready_thread}

abbrev pub stage_owned : Stage → ℕ → ℕ
stage_owned (adding sn b i) j = one i j
stage_owned (holding sn b i) j = one i j
stage_owned (dropping b i) j = one i j
stage_owned _ j = 0

abbrev pub threads_owned : List Thread → ℕ → ℕ
threads_owned [] j = 0
threads_owned (t ∷ ts) j = stage_owned t.stage j + threads_owned ts j

abbrev pub map_owned : List (List ℕ × ℕ) → ℕ → ℕ
map_owned [] j = 0
map_owned ((k, i) ∷ m) j = one i j + map_owned m j

abbrev pub found_owned : Option ℕ → ℕ → ℕ
found_owned none j = 0
found_owned (some i) j = one i j

abbrev found_stage_owned : Option Thread → ℕ → ℕ
found_stage_owned none j = 0
found_stage_owned (some t) j = stage_owned t.stage j

pub threads_owned-set :
    (ts : List Thread) (k : ℕ) (t t' : Thread) (j : ℕ)
    → get_elem? ts k ≡ some t
    → threads_owned (set ts k t') j + stage_owned t.stage j
      ≡ threads_owned ts j + stage_owned t'.stage j
threads_owned-set [] k t t' j e = cc
threads_owned-set (u ∷ ts) zero t t' j e = omega (arith, ap (λ x. found_stage_owned x j) e)
threads_owned-set (u ∷ ts) (suc k) t t' j e = omega (arith, threads_owned-set ts k t t' j e)

pub threads_owned-ready :
    (calls : List (List Call)) (j : ℕ) → threads_owned (map ready_thread calls) j ≡ 0
threads_owned-ready [] j = refl
threads_owned-ready (cs ∷ calls) j = omega (arith, threads_owned-ready calls j)

pub map_owned-erase :
    (k : List ℕ) (m : List (List ℕ × ℕ)) (j : ℕ)
    → map_owned (erase k m) j + found_owned (lookup k m) j ≡ map_owned m j
unfolding erase lookup
map_owned-erase k [] j = refl
map_owned-erase k ((l, i) ∷ m) j = elim (Bool-cases (text_eq l k)) [
  | inl e ↦ rw e (omega arith)
  | inr e ↦ rw e (omega (arith, map_owned-erase k m j))
]

pub map_owned-insert :
    (k : List ℕ) (i : ℕ) (m : List (List ℕ × ℕ)) (j : ℕ)
    → map_owned (insert k i m) j + found_owned (lookup k m) j ≡ map_owned m j + one i j
unfolding insert lookup
map_owned-insert k i [] j = omega arith
map_owned-insert k i ((l, n) ∷ m) j = elim (Bool-cases (text_eq l k)) [
  | inl e ↦ rw e (omega arith)
  | inr e ↦ rw e (omega (arith, map_owned-insert k i m j))
]
