-- ===== src/Grpc/Locks/Exclusion.antt =====
-- Mutual exclusion of the threads of the server, and what it protects in src/camera_service.cc.

use grpc_cplugplug_example.Base.{
  ℕ, zero, suc, ◌≡◌, ◌≢◌, refl, sym, ◌∙◌, inl, inr, arith, Option, List, [], ◌∷◌, map, true, false,
  ◌==◌, ==_iff, Within, Within->>=, Within-map, Bool-cases,
}
use grpc_cplugplug_example.Sdk.{DeviceInfo, Env, Sys}
use grpc_cplugplug_example.Grpc.Serving.{Call}
use grpc_cplugplug_example.Grpc.Threads.{Shared}
use grpc_cplugplug_example.Grpc.Threads.Advances.{Any, turns_of}
use grpc_cplugplug_example.Grpc.Locks.{
  Mutex, camera_info_list_lock, cameras_list_lock, device_lock, new_device_lock,
}
use grpc_cplugplug_example.Grpc.Locks.Workers.{Machine, step, run, fresh, ready_worker}
use grpc_cplugplug_example.Grpc.Locks.Writes.{Same, Same-refl}
use grpc_cplugplug_example.Grpc.Locks.Holds.{holds, AllGuarded, holds-free, Moved, step-Moved}

module _ (env : Env) where
  -- No two threads hold the same mutex, and all that they have left to do is guarded.
  record Excluded (st : Machine env) : Type 0 where
    guarded : AllGuarded env st.workers
    exclusive :
        (j k : ℕ) (m : Mutex)
        → holds env j m st.workers ≡ true
        → holds env k m st.workers ≡ true
        → j ≡ k

  Moved-Excluded : (i : ℕ) (st st' : Machine env) → Excluded st → Moved env i st st' → Excluded st'
  Moved-Excluded i st st' x v = record { guarded = v.guarded; exclusive = only }
    where
      -- Who else held the mutex did so before, and then the thread at `i` did not get it.
      first :
          (k : ℕ) (m : Mutex)
          → k ≢ i
          → holds env i m st'.workers ≡ true
          → holds env k m st'.workers ≡ true
          → i ≡ k
      first k m ne hi hk =
          let before : holds env k m st.workers ≡ true = sym (v.others k m ne) ∙ hk in
          elim (v.own m hi) [
            | inl had ↦ x.exclusive i k m had before
            | inr nobody ↦ absurd (cc (holds-free env st.workers k m nobody, before))
          ]

      only :
          (j k : ℕ) (m : Mutex)
          → holds env j m st'.workers ≡ true
          → holds env k m st'.workers ≡ true
          → j ≡ k
      only j k m hj hk = elim (Bool-cases (j == i)) [
        | inl ji ↦ elim (Bool-cases (k == i)) [
          | inl ki ↦ (==_iff j i).0 ji ∙ sym ((==_iff k i).0 ki)
          | inr ki ↦
              let j=i : j ≡ i = (==_iff j i).0 ji in
              j=i ∙ first k m (λ e. cc ((==_iff k i).1 e, ki)) (rw (← j=i) hj) hk
        ]
        | inr ji ↦
            let j≢i : j ≢ i = λ e. cc ((==_iff j i).1 e, ji) in
            elim (Bool-cases (k == i)) [
              | inl ki ↦
                  let k=i : k ≡ i = (==_iff k i).0 ki in
                  sym (k=i ∙ first j m j≢i (rw (← k=i) hk) hj)
              | inr ki ↦
                  x.exclusive j k m (sym (v.others j m j≢i) ∙ hj)
                    (sym (v.others k m (λ e. cc ((==_iff k i).1 e, ki))) ∙ hk)
            ]
      ]

  step-Excluded :
      (k : ℕ) (st : Machine env)
      → Excluded st
      → Within Any (λ st'. Excluded st' × Moved env k st st') (step env k st)
  step-Excluded k st x =
      Within-map Any (Moved env k st) (λ st'. Excluded st' × Moved env k st st') (step env k st)
        (step-Moved env k st x.guarded) λ st' v. (Moved-Excluded k st st' x v, v)

  run-Excluded :
      (ks : List ℕ) (st : Machine env) → Excluded st → Within Any Excluded (run env ks st)
  unfolding run
  run-Excluded [] st x = x
  run-Excluded (k ∷ ks) st x =
      Within->>= Any (λ st'. Excluded st' × Moved env k st st') Excluded (step env k st)
        (λ st'. run env ks st') (step-Excluded k st x) λ st' p. run-Excluded ks st' p.0

  fresh-Excluded :
      (calls : List (List Call)) (infos : List (Option DeviceInfo)) (s : Sys env.World)
      → Excluded (fresh env calls infos s)
  unfolding fresh
  fresh-Excluded calls infos s = record {
    guarded = all calls;
    exclusive = λ j k m hj hk. absurd (cc (nothing calls j m, hj));
  }
    where
      all : (calls : List (List Call)) → AllGuarded env (map (ready_worker env) calls)
      all [] = tt
      all (cs ∷ calls) = (refl, all calls)

      nothing :
          (calls : List (List Call)) (j : ℕ) (m : Mutex)
          → holds env j m (map (ready_worker env) calls) ≡ false
      nothing [] j m = refl
      nothing (cs ∷ calls) zero m = refl
      nothing (cs ∷ calls) (suc j) m = nothing calls j m

  Same-trans : (m : Mutex) (a b c : Shared env) → Same env m a b → Same env m b c → Same env m a c
  Same-trans camera_info_list_lock a b c p q = q ∙ p
  Same-trans cameras_list_lock a b c p q = q ∙ p
  Same-trans (device_lock i) a b c p q =
      λ o e. let x = p o e in let y = q x.0 x.1 in (y.0, y.1, y.2 ∙ x.2)
  Same-trans (new_device_lock k) a b c p q = tt

  -- What one thread holds another does not.
  lacks :
      (st : Machine env) (j k : ℕ) (m : Mutex)
      → Excluded st
      → j ≢ k
      → holds env k m st.workers ≡ true
      → holds env j m st.workers ≡ false
  lacks st j k m x ne h = elim (Bool-cases (holds env j m st.workers)) [
    | inl both ↦ absurd (ne (x.exclusive j k m both h))
    | inr e ↦ e
  ]

  run-Same :
      (k : ℕ) (m : Mutex) (js : List ℕ) (st : Machine env)
      → Excluded st
      → holds env k m st.workers ≡ true
      → turns_of k js ≡ 0
      → Within Any
          (λ st'. Same env m st.shared st'.shared × (holds env k m st'.workers ≡ true))
          (run env js st)
  unfolding run
  run-Same k m [] st x h none_of = (Same-refl env st.shared m, h)
  run-Same k m (j ∷ js) st x h none_of = elim (Bool-cases (j == k)) [
    | inl same ↦ absurd (ground (arith, none_of, same))
    | inr other ↦
        let ne : k ≢ j = λ e. cc ((==_iff j k).1 (sym e), other) in
        Within->>= Any (λ st'. Excluded st' × Moved env j st st')
          (λ st'. Same env m st.shared st'.shared × (holds env k m st'.workers ≡ true))
          (step env j st) (λ st'. run env js st') (step-Excluded j st x)
          λ st' p.
            Within-map Any
              (λ st''. Same env m st'.shared st''.shared × (holds env k m st''.workers ≡ true))
              (λ st''. Same env m st.shared st''.shared × (holds env k m st''.workers ≡ true))
              (run env js st')
              (run-Same k m js st' p.0 (p.1.others k m ne ∙ h) (ground (arith, none_of, other)))
              λ st'' q. (
                Same-trans m st.shared st'.shared st''.shared
                    (p.1.same m (lacks st j k m x (λ e. ne (sym e)) h)) q.0,
                q.1,
              )
  ]

  -- The threads of the server answer these calls, with the mutexes of the provider and of the devices
  -- between them, and with their steps in any order. A method may end the process by a fault. At every moment
  -- that is reached, no two threads hold the same mutex. And while a thread holds one, the steps of
  -- all other threads, in any order, leave what it guards as it is: the list of the cameras found, the map of
  -- the open devices, or the device of an object that is there, which also stays alive; and the
  -- thread still holds it.
  pub run_guards :
      (calls : List (List Call)) (infos : List (Option DeviceInfo)) (s : Sys env.World)
      (ks : List ℕ)
      → Within Any
          (λ st.
            ((j k : ℕ) (m : Mutex)
              → holds env j m st.workers ≡ true
              → holds env k m st.workers ≡ true
              → j ≡ k)
            × ((k : ℕ) (m : Mutex) (js : List ℕ)
                → holds env k m st.workers ≡ true
                → turns_of k js ≡ 0
                → Within Any
                    (λ st'. Same env m st.shared st'.shared × (holds env k m st'.workers ≡ true))
                    (run env js st)))
          (run env ks (fresh env calls infos s))
  run_guards calls infos s ks =
      Within-map Any Excluded _ (run env ks (fresh env calls infos s))
        (run-Excluded ks (fresh env calls infos s) (fresh-Excluded calls infos s))
        λ st x. (x.exclusive, λ k m js h none_of. run-Same k m js st x h none_of)
