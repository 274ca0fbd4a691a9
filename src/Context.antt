-- ===== src/Context.antt =====
-- NetCtx (ctx.h, ctx.cpp) and NetFsmEvent::Process (fsm.cpp): a critical section runs a call, then
-- hands the events of its own queue to the device, and then those for other contexts, each inside
-- a critical section of the context of the machine that it names.
pub mod Safety
use klibmsg.Base.{ℕ, Bool, false, Option, none, some, List, [], ◌∷◌, if◌then◌else◌, ℤ, negsuc}
use klibmsg.Net.{
  Sock, Event, EventKind, SrcPtr, no_ptr, M, out_of_fuel, pure, ◌>>=◌, ◌>>◌, get, modify, check,
}
use klibmsg.Fsm.{put_event}
use klibmsg.Device.State.{User}
use klibmsg.Device.Ops.{Sys}
use klibmsg.Device.Handler.{device_handler}

-- What the system answers inside a critical section: during each event of its own queue, and for
-- each event for another context, during it and inside the section in which it is processed. The
-- loops end at the latest where the answers do.
pub data Answers : Type 0 where
  end : Answers
  section : Sys → List Sys → Answers → Answers → Answers

-- An event, a field of a socket.
abbrev pub Item : Type 0
Item = ℕ × EventKind

-- The front of `events_`, whose item is then in no queue.
unfoldable pub unqueue : EventKind → Sock → Sock
unqueue k s = put_event k (record (s.event k) { queued = false }) s

unfoldable pub take_front : ℕ → List Item → M (Option Item)
take_front i [] = pure none
take_front i ((j, k) ∷ rest) = do
  modify i λ s. record s { events = rest }
  modify j (unqueue k)
  pure (some (j, k))

-- `events_.Pop()`
unfoldable pub pop_event : ℕ → M (Option Item)
pop_event i = do sock ← get i; take_front i sock.events

-- The fields that Process resets.
unfoldable pub reset : EventKind → Sock → Sock
reset k s = put_event k (record (s.event k) { src = negsuc 0; type = negsuc 0; srcptr = no_ptr }) s

-- `fsm_->owner()`: the owner of every socket is the device, and nullptr is followed.
unfoldable pub feed_owner : ℕ → User → Sys → Option ℕ → Event → M (Unit {0})
feed_owner fuel user sys none e = check false
feed_owner fuel user sys (some j) e = device_handler fuel user sys e.src e.type e.srcptr

-- NetFsmEvent::Process
unfoldable pub process : ℕ → User → Sys → Item → M (Unit {0})
process fuel user sys (j, k) = do
  sock ← get j
  modify j (reset k)
  feed_owner fuel user sys (sock.event k).fsm (sock.event k)

unfoldable pub step_drain : (Item → M (Unit {0})) → M (Unit {0}) → Option Item → M (Unit {0})
step_drain handle more none = pure tt
step_drain handle more (some e) = do handle e; more

-- The first loop of ExecuteCriticalSection.
unfoldable pub drain : ℕ → User → ℕ → List Sys → M (Unit {0})
drain fuel user i [] = λ n. out_of_fuel
drain fuel user i (sys ∷ later) = do
  front ← pop_event i
  step_drain (process fuel user sys) (drain fuel user i later) front

-- `NetQueue eventsto = eventsto_; eventsto_.Init();`
unfoldable pub take_eventsto : ℕ → M (List Item)
take_eventsto i = do sock ← get i; modify i λ s. record s { eventsto = [] }; pure sock.eventsto

-- ExecuteCriticalSection, with the loop over the events for other contexts.
unfoldable pub run_section :
    ℕ → User → ℕ → M (Unit {0}) → List Sys → (List Item → M (Unit {0})) → M (Unit {0})
run_section fuel user i func answers others = do
  func
  drain fuel user i answers
  items ← take_eventsto i
  others items

-- `event->fsm()`, where nullptr is followed.
unfoldable pub target : (ℕ → M (Unit {0})) → Option ℕ → M (Unit {0})
target f none = check false
target f (some i) = f i

-- The context of the machine of an event that is popped.
unfoldable pub context_of : Item → (ℕ → M (Unit {0})) → M (Unit {0})
context_of (j, k) f = do modify j (unqueue k); sock ← get j; target f (sock.event k).fsm

-- The second loop.
unfoldable pub process_others : ℕ → User → Answers → List Item → M (Unit {0})
process_others fuel user end [] = pure tt
process_others fuel user end (e ∷ es) = λ n. out_of_fuel
process_others fuel user (section sys answers inner later) [] = pure tt
process_others fuel user (section sys answers inner later) (e ∷ es) = do
  context_of e λ i.
      run_section fuel user i (process fuel user sys e) answers (process_others fuel user inner)
  process_others fuel user later es

-- NetCtx::ExecuteCriticalSection
unfoldable pub execute_critical_section :
    ℕ → User → ℕ → M (Unit {0}) → List Sys → Answers → M (Unit {0})
execute_critical_section fuel user i func answers others =
    run_section fuel user i func answers (process_others fuel user others)
