-- ===== src/Context/Safety.antt =====
-- Safety of a critical section around a safe call (ctx.cpp).
use klibmsg.Base.{ℕ, suc, refl, false, Option, none, some, List, [], ◌∷◌}
use klibmsg.Net.{Event, EventKind, M, modify}
use klibmsg.Device.State.{User}
use klibmsg.Device.Ops.{Sys}
use klibmsg.Device.Safety.Handler.{device_handler-Keeps}
use klibmsg.Context.{
  Answers, end, section, Item, unqueue, reset, take_front, pop_event, feed_owner, process,
  step_drain, drain, take_eventsto, run_section, context_of, target, process_others,
  execute_critical_section,
}
use klibmsg.Socket.Safety.{
  Keeps, bind-Keeps, then-Keeps, pure-Keeps, get-Keeps, check-Keeps, modify-Keeps_same,
}
use klibmsg.Socket.Safety.Partly.{Partly, Keeps-Partly, fuel-Partly, bind-Partly, then-Partly}

unqueue-Keeps : (j : ℕ) (k : EventKind) → Keeps (modify j (unqueue k))
unfolding unqueue
unqueue-Keeps j k = modify-Keeps_same j (unqueue k) (λ s. refl) (λ s h. h)

take_front-Keeps : (i : ℕ) (l : List Item) → Keeps (take_front i l)
unfolding take_front
take_front-Keeps i [] = pure-Keeps none
take_front-Keeps i ((j, k) ∷ rest) =
    then-Keeps (modify-Keeps_same i _ (λ s. refl) (λ s h. h))
      (then-Keeps (unqueue-Keeps j k) (pure-Keeps _))

pop_event-Keeps : (i : ℕ) → Keeps (pop_event i)
unfolding pop_event
pop_event-Keeps i = bind-Keeps (get-Keeps i) λ sock. take_front-Keeps i sock.events

take_eventsto-Keeps : (i : ℕ) → Keeps (take_eventsto i)
unfolding take_eventsto
take_eventsto-Keeps i =
    bind-Keeps (get-Keeps i)
      λ sock. then-Keeps (modify-Keeps_same i _ (λ s. refl) (λ s h. h)) (pure-Keeps _)

module _ (k : ℕ) (user : User) where
  feed_owner-Keeps :
      (sys : Sys) (o : Option ℕ) (e : Event) → Keeps (feed_owner (suc (suc k)) user sys o e)
  unfolding feed_owner
  feed_owner-Keeps sys none e = check-Keeps false
  feed_owner-Keeps sys (some j) e = device_handler-Keeps k user sys e.src e.type e.srcptr

  process-Keeps : (sys : Sys) (e : Item) → Keeps (process (suc (suc k)) user sys e)
  unfolding process reset
  process-Keeps sys (j, kind) = bind-Keeps (get-Keeps j) λ sock.
      then-Keeps (modify-Keeps_same j (reset kind) (λ s. refl) (λ s h. h))
        (feed_owner-Keeps sys (sock.event kind).fsm (sock.event kind))

  step_drain-Partly :
      (handle : Item → M (Unit {0})) (more : M (Unit {0}))
      → ((e : Item) → Keeps (handle e))
      → Partly more
      → (o : Option Item) → Partly (step_drain handle more o)
  unfolding step_drain
  step_drain-Partly handle more h m none = Keeps-Partly (pure-Keeps tt)
  step_drain-Partly handle more h m (some e) = then-Partly (Keeps-Partly (h e)) m

  drain-Partly : (i : ℕ) (answers : List Sys) → Partly (drain (suc (suc k)) user i answers)
  unfolding drain
  drain-Partly i [] = fuel-Partly
  drain-Partly i (sys ∷ later) =
      bind-Partly (Keeps-Partly (pop_event-Keeps i))
        λ o. step_drain-Partly _ _ (process-Keeps sys) (drain-Partly i later) o

  run_section-Partly :
      (i : ℕ) (func : M (Unit {0})) (answers : List Sys) (others : List Item → M (Unit {0}))
      → Partly func
      → ((l : List Item) → Partly (others l))
      → Partly (run_section (suc (suc k)) user i func answers others)
  unfolding run_section
  run_section-Partly i func answers others p q =
      then-Partly p (
        then-Partly (drain-Partly i answers) (bind-Partly (Keeps-Partly (take_eventsto-Keeps i)) q))

  target-Partly :
      (o : Option ℕ) (f : ℕ → M (Unit {0})) → ((i : ℕ) → Partly (f i)) → Partly (target f o)
  unfolding target
  target-Partly none f h = Keeps-Partly (check-Keeps false)
  target-Partly (some i) f h = h i

  context_of-Partly :
      (e : Item) (f : ℕ → M (Unit {0})) → ((i : ℕ) → Partly (f i)) → Partly (context_of e f)
  unfolding context_of
  context_of-Partly (j, kind) f h =
      then-Partly (Keeps-Partly (unqueue-Keeps j kind))
        (bind-Partly (Keeps-Partly (get-Keeps j)) λ sock. target-Partly (sock.event kind).fsm f h)

  process_others-Partly :
      (a : Answers) (l : List Item) → Partly (process_others (suc (suc k)) user a l)
  unfolding process_others
  process_others-Partly end [] = Keeps-Partly (pure-Keeps tt)
  process_others-Partly end (e ∷ es) = fuel-Partly
  process_others-Partly (section sys answers inner later) [] = Keeps-Partly (pure-Keeps tt)
  process_others-Partly (section sys answers inner later) (e ∷ es) =
      then-Partly
        (context_of-Partly e _ λ i.
          run_section-Partly i _ answers _ (Keeps-Partly (process-Keeps sys e))
            (process_others-Partly inner))
        (process_others-Partly later es)

  pub execute_critical_section-Partly :
      (i : ℕ) (func : M (Unit {0})) (answers : List Sys) (others : Answers)
      → Keeps func
      → Partly (execute_critical_section (suc (suc k)) user i func answers others)
  unfolding execute_critical_section
  execute_critical_section-Partly i func answers others p =
      run_section-Partly i func answers _ (Keeps-Partly p) (process_others-Partly others)
