-- ===== src/Loop.antt =====
-- `status_t` of src/utils.cpp, the stop flag of the program, and the functions around it.
pub mod Stop
use grpc_cplugplug_example.Base.{
  ℕ, zero, suc, ◌+◌, Bool, true, false, not, Option, none, some, List, [], ◌∷◌, if◌then◌else◌,
}
use mathlib.Core.Option

pub record Status : Type 0 where
  pub status : Bool

unfoldable pub init : Status
init = record { status = false }

unfoldable pub is_stopped : Status → Bool
is_stopped s = s.status

unfoldable pub stop : Status → Status
stop s = record s { status = true }

unfoldable pub is_continue_loop : Status → Bool
unfolding is_stopped
is_continue_loop s = not (is_stopped s)

-- What happens while the loop sleeps: nothing, a call of `stop_loop`, or a signal with its number.
pub data Event : Type 0 where
  quiet stop_loop : Event
  interrupt : ℕ → Event

-- The handler that `init_loop_signal` installs for SIGINT.
unfoldable pub signal_handler : ℕ → Status → Status
unfolding stop
signal_handler signum s = stop s

unfoldable pub handle : Event → Status → Status
unfolding stop signal_handler
handle quiet s = s
handle stop_loop s = stop s
handle (interrupt signum) s = signal_handler signum s

-- `loop`, with one event for each sleep of 1000 ms. The number counts the sleeps before it returns;
-- `none` where it has not returned when the events are used up.
unfoldable pub loop : Status → List Event → Option ℕ
unfolding handle
loop s [] = if s.status then some 0 else none
loop s (e ∷ es) =
    let rest = loop (handle e s) es in if s.status then some 0 else Option.map suc rest

-- `loop_until`: the loop of MAIN_PROGRAM_LOOP.
unfoldable pub loop_until : List Event → Option ℕ
unfolding loop init
loop_until es = loop init es
