-- ===== src/Grpc/Locks/Deadlock.antt =====
-- The threads of the server do not wait for each other in a circle, since they take the mutexes of
-- src/camera_service.cc in one order.
use mathlib.Core.Option.{some_inj}
use grpc_cplugplug_example.Base.{
  ℕ, zero, suc, ◌+◌, ◌≤◌, ◌<◌, ◌≡◌, refl, ap, ◌⊎◌, inl, inr, arith, some, List, [], ◌∷◌, get_elem?,
  true, false, Bool-cases, subst,
}
use grpc_cplugplug_example.Sdk.{Env}
use grpc_cplugplug_example.Grpc.Serving.{Call}
use grpc_cplugplug_example.Grpc.Threads.Advances.{Rpc}
use grpc_cplugplug_example.Grpc.Locks.{
  Mutex, camera_info_list_lock, cameras_list_lock, device_lock, new_device_lock, same_mutex, Code,
  leave, acquire, release, effect,
}
use grpc_cplugplug_example.Grpc.Locks.Mutexes.{has, same_mutex_eq}
use grpc_cplugplug_example.Grpc.Locks.Workers.{Worker, free}
use grpc_cplugplug_example.Grpc.Locks.Order.{rank, Above, Orderly}
use grpc_cplugplug_example.Grpc.Locks.OnTime.{over, waits, OnTime, AllOnTime}

rank_bound : (m : Mutex) → rank m ≤ 1
rank_bound camera_info_list_lock = omega arith
rank_bound cameras_list_lock = omega arith
rank_bound (device_lock i) = omega arith
rank_bound (new_device_lock k) = omega arith

pub has-Above : (m m' : Mutex) (hs : List Mutex) → has m hs ≡ true → Above m' hs → rank m < rank m'
has-Above m m' [] e a = absurd (cc e)
has-Above m m' (h ∷ hs) e a = elim (Bool-cases (same_mutex h m)) [
  | inl same ↦ omega (arith, a.0, ap rank (same_mutex_eq h m same))
  | inr other ↦ has-Above m m' hs (rw other at e) a.1
]

module _ (env : Env) where
  -- A thread that has a step to take and need not wait.
  pub record Active (ws : List (Worker env)) : Type 1 where
    pub place : ℕ
    pub worker : Worker env
    pub there : get_elem? ws place ≡ some worker
    pub busy : over env worker.calls worker.code ≡ false
    pub ready : waits env worker.code ws ≡ false

  -- The thread that has the mutex.
  record Holder (m : Mutex) (ws : List (Worker env)) : Type 1 where
    place : ℕ
    worker : Worker env
    there : get_elem? ws place ≡ some worker
    holds : has m worker.held ≡ true

  holder : (m : Mutex) (ws : List (Worker env)) → free env m ws ≡ false → Holder m ws
  holder m [] e = absurd (cc e)
  holder m (w ∷ ws) e = elim (Bool-cases (has m w.held)) [
    | inl h ↦ record { place = 0; worker = w; there = refl; holds = h }
    | inr h ↦
        let r = holder m ws (rw h at e) in
        record { place = suc r.place; worker = r.worker; there = r.there; holds = r.holds }
  ]

  -- A thread that has a mutex is not at the end of a turn, and waits for a higher one only.
  held_active :
      (ws : List (Worker env)) (m : Mutex) (hs : List Mutex) (asks : List Rpc) (n : ℕ)
      (cs : List Call) (c : Code env)
      → Orderly env hs asks n c
      → has m hs ≡ true
      → (over env cs c ≡ false)
        × ((waits env c ws ≡ false)
            ⊎ ((m' : Mutex) × (free env m' ws ≡ false) × (rank m < rank m')))
  held_active ws m hs asks n cs (leave stage answers) o h = absurd (cc (o.0, h))
  held_active ws m hs asks zero cs (acquire m' c) o h = absurd o
  held_active ws m hs asks (suc n) cs (acquire m' c) o h = (
    refl,
    elim (Bool-cases (free env m' ws)) [
      | inl e ↦ inl (rw e refl)
      | inr e ↦ inr (m', e, has-Above m m' hs h o.0)
    ],
  )
  held_active ws m hs asks n cs (release m' c) o h = (refl, inl refl)
  held_active ws m hs asks n cs (effect A f c) o h = (refl, inl refl)

  OnTime-at :
      (gs : List (List Rpc)) (ns : List ℕ) (ws : List (Worker env)) (k : ℕ) (w : Worker env)
      → AllOnTime env gs ns ws
      → get_elem? ws k ≡ some w
      → (g : List Rpc) × (n : ℕ) × OnTime env g n w
  OnTime-at [] [] [] k w all e = absurd (cc e)
  OnTime-at [] [] (x ∷ ws) k w all e = absurd all
  OnTime-at [] (n ∷ ns) ws k w all e = absurd all
  OnTime-at (g ∷ gs) [] ws k w all e = absurd all
  OnTime-at (g ∷ gs) (n ∷ ns) [] k w all e = absurd all
  OnTime-at (g ∷ gs) (n ∷ ns) (x ∷ ws) zero w all e =
      (g, n, subst (OnTime env g n) (some_inj.0 e) all.0)
  OnTime-at (g ∷ gs) (n ∷ ns) (x ∷ ws) (suc k) w all e = OnTime-at gs ns ws k w all.1 e

  -- From the thread that has a mutex on, up the order of the mutexes.
  climb :
      (gs : List (List Rpc)) (ns : List ℕ) (ws : List (Worker env)) (m : Mutex) (left : ℕ)
      → AllOnTime env gs ns ws
      → free env m ws ≡ false
      → 2 ≤ rank m + left
      → Active ws
  climb gs ns ws m zero all taken le = absurd (omega (arith, le, rank_bound m))
  climb gs ns ws m (suc left) all taken le =
      let h = holder m ws taken in
      let o = (OnTime-at gs ns ws h.place h.worker all h.there).2 in
      let a =
        held_active ws m h.worker.held o.asks o.steps h.worker.calls h.worker.code o.orderly
          h.holds in
      elim a.1 [
        | inl ready ↦ record {
          place = h.place;
          worker = h.worker;
          there = h.there;
          busy = a.0;
          ready = ready;
        }
        | inr (m', taken', higher) ↦ climb gs ns ws m' left all taken' (omega (arith, le, higher))
      ]

  abbrev pub AllOver : List (Worker env) → Type 0
  AllOver [] = Unit
  AllOver (w ∷ ws) = (over env w.calls w.code ≡ true) × AllOver ws

  record Busy (ws : List (Worker env)) : Type 1 where
    place : ℕ
    worker : Worker env
    there : get_elem? ws place ≡ some worker
    busy : over env worker.calls worker.code ≡ false

  AllOver-or-Busy : (ws : List (Worker env)) → AllOver ws ⊎ Busy ws
  AllOver-or-Busy [] = inl tt
  AllOver-or-Busy (w ∷ ws) = elim (Bool-cases (over env w.calls w.code)) [
    | inr e ↦ inr (record { place = 0; worker = w; there = refl; busy = e })
    | inl e ↦ elim (AllOver-or-Busy ws) [
      | inl all ↦ inl (e, all)
      | inr b ↦
          inr (record { place = suc b.place; worker = b.worker; there = b.there; busy = b.busy })
    ]
  ]

  waits_for :
      (c : Code env) (ws : List (Worker env))
      → (waits env c ws ≡ false) ⊎ ((m : Mutex) × (free env m ws ≡ false))
  waits_for (leave stage answers) ws = inl refl
  waits_for (release m c) ws = inl refl
  waits_for (effect A f c) ws = inl refl
  waits_for (acquire m c) ws = elim (Bool-cases (free env m ws)) [
    | inl e ↦ inl (rw e refl)
    | inr e ↦ inr (m, e)
  ]

  -- All threads are through with their calls, or one of them can take a step.
  pub AllOver-or-Active :
      (gs : List (List Rpc)) (ns : List ℕ) (ws : List (Worker env))
      → AllOnTime env gs ns ws
      → AllOver ws ⊎ Active ws
  AllOver-or-Active gs ns ws all = elim (AllOver-or-Busy ws) [
    | inl done ↦ inl done
    | inr b ↦ inr (elim (waits_for b.worker.code ws) [
      | inl ready ↦ record {
        place = b.place;
        worker = b.worker;
        there = b.there;
        busy = b.busy;
        ready = ready;
      }
      | inr (m, taken) ↦ climb gs ns ws m 2 all taken (omega arith)
    ])
  ]
