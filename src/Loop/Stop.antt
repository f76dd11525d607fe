-- ===== src/Loop/Stop.antt =====
-- When the loop returns.
use grpc_cplugplug_example.Base.{
  ℕ, suc, ◌≡◌, ◌≢◌, refl, ap, true, false, Option, none, some, List, [], ◌∷◌,
}
use mathlib.Core.Option
use grpc_cplugplug_example.Loop.{
  init, Event, quiet, stop_loop, interrupt, stop, signal_handler, handle, loop, loop_until,
}

-- The events that ask the loop to stop.
abbrev pub Stops : Event → Type 0
Stops e = e ≢ quiet

-- The specification: the number of events up to and with the first one that asks for a stop.
pub first_stop : List Event → Option ℕ
first_stop [] = none
first_stop (quiet ∷ es) = Option.map suc (first_stop es)
first_stop (_ ∷ es) = some 1

loop_stopped : (es : List Event) → loop (record { status = true }) es ≡ some 0
unfolding loop
loop_stopped [] = refl
loop_stopped (e ∷ es) = refl

loop-first_stop : (es : List Event) → loop (record { status = false }) es ≡ first_stop es
unfolding loop first_stop handle stop signal_handler
loop-first_stop [] = refl
loop-first_stop (quiet ∷ es) = ap (Option.map suc) (loop-first_stop es)
loop-first_stop (stop_loop ∷ es) = ap (Option.map suc) (loop_stopped es)
loop-first_stop (interrupt n ∷ es) = ap (Option.map suc) (loop_stopped es)

-- The loop returns after the sleep in which the first stop is asked for, by a call or by a signal,
-- and it does not return while there is none.
pub loop_until-first_stop : (es : List Event) → loop_until es ≡ first_stop es
unfolding loop_until init
loop_until-first_stop es = loop-first_stop es
